-- ===== src/Cipher/Open.antt =====
-- `open` of core/voice_crypto.py over any sequence of arriving datagrams.
use proxy_net.Prelude.{
  ℕ, ◌≡◌, refl, inl, inr, List, [], ◌∷◌, Bool, true, false, some, eqb, eqb_iff, if◌then◌else◌,
  Result, ok, err, take, Result-cases, Option-cases, Bool-cases, arith, sym, ◌∙◌, nat_eq,
}
use mathlib.Core.Path.{subst}
use proxy_net.Bytes.{Bytes}
use proxy_net.Dict.{get}
use proxy_net.Dict.Laws.{get-put}
use proxy_net.VoicePacket.{VoiceHeader, unpack, header_bytes}
use proxy_net.Replay.{check}
use proxy_net.Replay.Window.{Tracks}
use proxy_net.Replay.Check.{remember, check-Answers}
use proxy_net.Replay.Runs.{NoRepeats, fresh_not_in, remember-NoRepeats}
use proxy_net.Cipher.{
  Library, Cipher, CipherError, Sender, replay, open_datagram, open_from, admit, unprotect,
}

-- What was opened: sender ids and sequence numbers, the latest first.
abbrev pub Log : Type 0
Log = List (ℕ × ℕ)

unfoldable pub numbers_of : ℕ → Log → List ℕ
numbers_of i [] = []
numbers_of i ((j, n) ∷ log) = if eqb j i then n ∷ numbers_of i log else numbers_of i log

abbrev pub note : Result CipherError (VoiceHeader × Bytes) → Log → Log
note (err e) log = log
note (ok (h, audio)) log = (h.sender_id, h.sequence) ∷ log

-- Each window tracks what was opened of its sender, and no number was opened twice.
pub record Follows (c : Cipher) (log : Log) : Type 0 where
  pub windows : (i : ℕ) (s : Sender) → get c.senders i ≡ some s → Tracks s.window (numbers_of i log)
  pub unique : (i : ℕ) → NoRepeats (numbers_of i log)

numbers_of-note :
    (accepted : Bool) (h : VoiceHeader) (audio : Bytes) (i : ℕ) (log : Log)
    → numbers_of i (note (if accepted then ok (h, audio) else err replay) log) ≡ (
        if eqb h.sender_id i
        then remember accepted h.sequence (numbers_of i log)
        else numbers_of i log)
unfolding numbers_of
numbers_of-note true h audio i log = refl
numbers_of-note false h audio i log = ground arith

admit-Follows :
    (c : Cipher) (sender : Sender) (h : VoiceHeader) (audio : Bytes) (log : Log)
    → get c.senders h.sender_id ≡ some sender
    → Follows c log
    → Follows (admit c sender h audio).0 (note (admit c sender h audio).1 log)
unfolding admit
admit-Follows c sender h audio log there f =
    let known = f.windows h.sender_id sender there in
    let answer = check-Answers sender.window (numbers_of h.sender_id log) h.sequence known in
    let accepted : Bool = (check sender.window h.sequence).1 in
    let sender' : Sender = record sender { window = (check sender.window h.sequence).0 } in
    record {
      windows = λ i s e.
          rw (numbers_of-note accepted h audio i log) (elim (Bool-cases (eqb h.sender_id i)) [
            | inl same ↦
                let is : sender' ≡ s = ground (arith, get-put c.senders h.sender_id i sender') in
                rw (same, ← (eqb_iff h.sender_id i).0 same)
                  (subst
                    (λ (x : Sender).
                      Tracks x.window (remember accepted h.sequence (numbers_of h.sender_id log)))
                    is answer.tracks)
            | inr other ↦
                rw other (f.windows i s (ground (arith, get-put c.senders h.sender_id i sender')))
          ]);
      unique = λ i.
          rw (numbers_of-note accepted h audio i log) (elim (Bool-cases (eqb h.sender_id i)) [
            | inl same ↦
                rw (same, ← (eqb_iff h.sender_id i).0 same)
                  (remember-NoRepeats accepted h.sequence (numbers_of h.sender_id log)
                    (λ e.
                      fresh_not_in sender.window.highest sender.window (numbers_of h.sender_id log)
                        h.sequence known.map (sym answer.verdict ∙ e))
                    (f.unique h.sender_id))
            | inr other ↦ rw other (f.unique i)
          ]);
    }

module _ (lib : Library) where
  open-Follows :
      (c : Cipher) (datagram : Bytes) (log : Log)
      → Follows c log
      → Follows (open_datagram lib c datagram).0 (note (open_datagram lib c datagram).1 log)
  unfolding open_datagram open_from
  open-Follows c datagram log f = elim (Result-cases (unpack datagram)) [
    | inr (x, failed) ↦ rw (failed, open_datagram) f
    | inl ((header, body), read) ↦ elim (Option-cases (get c.senders header.sender_id)) [
      | inl missing ↦ rw (read, missing, open_datagram) f
      | inr (sender, there) ↦
          elim (Result-cases (unprotect lib sender.aead header (take header_bytes datagram) body)) [
            | inr (x, failed) ↦ rw (read, there, failed, open_datagram, open_from) f
            | inl (audio, opened) ↦
                rw (read, there, opened, open_datagram, open_from)
                  (admit-Follows c sender header audio log there f)
          ]
    ]
  ]

  -- What a receiver opens of the arriving datagrams.
  unfoldable pub opened : Cipher → List Bytes → Log → Cipher × Log
  opened c [] log = (c, log)
  opened c (d ∷ ds) log = let (c', r) = open_datagram lib c d in opened c' ds (note r log)

  opened_from-Follows :
      (c : Cipher) (ds : List Bytes) (log : Log)
      → Follows c log
      → Follows (opened c ds log).0 (opened c ds log).1
  unfolding opened
  opened_from-Follows c [] log f = f
  opened_from-Follows c (d ∷ ds) log f =
      opened_from-Follows (open_datagram lib c d).0 ds (note (open_datagram lib c d).1 log)
        (open-Follows c d log f)

  -- Whatever datagrams arrive at a cipher whose windows are empty, genuine, forged or recorded, no
  -- sequence number of a sender is opened twice.
  pub opened_unique :
      (c : Cipher) (ds : List Bytes)
      → ((i : ℕ) (s : Sender) → get c.senders i ≡ some s → Tracks s.window [])
      → (i : ℕ) → NoRepeats (numbers_of i (opened c ds []).1)
  unfolding numbers_of
  opened_unique c ds fresh i =
      (opened_from-Follows c ds [] (record { windows = fresh; unique = λ j. tt })).unique i
