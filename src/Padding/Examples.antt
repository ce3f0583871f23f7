-- ===== src/Padding/Examples.antt =====
-- Runs of core/padding.py at concrete inputs.
use proxy_net.Prelude.{◌≡◌, refl, [], ◌∷◌, arith, ok, err, replicate}
use proxy_net.Bytes.{Bytes, to_bytes, from_bytes, big_endian}
use proxy_net.Padding.{bucket_for, message_too_long, length_does_not_fit, pad, unpad}
use proxy_net.Padding.RoundTrip.{unpad-pad, pad-PadsTo, PadsTo}

abbrev greeting : Bytes
greeting = 111 ∷ 107 ∷ []

abbrev padded_greeting : Bytes
padded_greeting = 0 ∷ 2 ∷ 111 ∷ 107 ∷ replicate 28 0

pad-greeting : pad greeting ≡ ok padded_greeting
unfolding pad bucket_for to_bytes big_endian
pad-greeting = refl

rung_past_a_step : bucket_for 31 ≡ ok 64
unfolding bucket_for
rung_past_a_step = refl

rung_too_long : bucket_for 6111 ≡ err message_too_long
unfolding bucket_for
rung_too_long = refl

unpad_lying_field : unpad (0 ∷ 9 ∷ 1 ∷ []) ≡ err length_does_not_fit
unfolding unpad from_bytes
unpad_lying_field = refl

unpad-pad_example : (q : Bytes) × (pad greeting ≡ ok q) × (unpad q ≡ ok greeting)
unpad-pad_example = unpad-pad greeting (omega arith)

pad-PadsTo_example : PadsTo greeting (pad greeting)
pad-PadsTo_example = pad-PadsTo greeting
