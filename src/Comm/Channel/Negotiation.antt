-- ===== src/Comm/Channel/Negotiation.antt =====
-- The two sides of a connection agree on a protocol version, or the channel is of no use.
use icecream.Base.{
  ℕ, zero, ◌&&◌, suc, ◌+◌, ◌*◌, ◌/◌, ◌%◌, ◌^◌, ◌≤◌, ◌<◌, ◌≡◌, ◌⊎◌, min, refl, ◌∙◌, Bool, true,
  false, Bool-cases, inl, inr, [], ltb, ◌||◌, ◌==◌, if◌then◌else◌, arith,
}
use icecream.Base.Int.{pos, negsuc}
use icecream.Comm.{Bytes, IsWord, protocol_version, min_protocol_version}
use icecream.Comm.Channel.{
  MsgChannel, protocol_failed, is_need_proto, need_len, in_error, put_version, new_channel, stop,
  answer_version, hear_version, proto_loop, update_len, update_state,
}

-- A version that is not refused.
abbrev pub IsVersion : ℕ → Type 0
IsVersion v = (min_protocol_version ≤ v) × (v ≤ 2 ^ 20)

-- The version that both sides are to use.
abbrev pub common : ℕ → ℕ
common v = min v protocol_version

read_version :
    (v : ℕ)
    → IsWord v
    → v % 256 + v / 2 ^ 8 % 256 * 2 ^ 8 + v / 2 ^ 16 % 256 * 2 ^ 16 + v / 2 ^ 24 % 256 * 2 ^ 24 ≡ v
read_version v h = omega (arith, h)

-- A new channel that gets some bytes.
abbrev pub opened : Bytes → Bool × MsgChannel
opened bytes = update_state true (record (new_channel false true) { input = bytes })

-- The channel once both versions fit, with what comes behind them.
abbrev pub agreed : ℕ → Bytes → MsgChannel
agreed v behind = record (new_channel false true) {
  protocol = pos (common v);
  maximum_remote_protocol = v;
  input = behind;
  instate = need_len;
  sent = put_version protocol_version (put_version (common v) []);
}

abbrev half_agreed : ℕ → Bytes → MsgChannel
half_agreed v behind = record (new_channel false true) {
  protocol = negsuc (common v);
  maximum_remote_protocol = v;
  input = behind;
  sent = put_version protocol_version (put_version (common v) []);
}

-- What is left of the channel when the second version is not the one that it expects.
abbrev pub disagreed : ℕ → Bytes → MsgChannel
disagreed v behind = stop (record (half_agreed v behind) { protocol = pos 0 })

hear-first :
    (v : ℕ) (behind : Bytes)
    → IsVersion v
    → hear_version true v (record (new_channel false true) { input = behind })
      ≡ (true, half_agreed v behind)
unfolding hear_version answer_version new_channel put_version
hear-first v behind h =
    let fits : (ltb v min_protocol_version || ltb (2 ^ 20) v) ≡ false = ground (arith, h) in
    rw fits refl

hear-second :
    (c : MsgChannel) (n w : ℕ)
    → 0 < n
    → hear_version true w (record c { protocol = negsuc n }) ≡ (
        if w == n
        then (true, record c { protocol = pos n; instate = need_len })
        else (false, stop (record c { protocol = pos 0 })))
unfolding hear_version
hear-second c zero w h = absurd (omega (arith, h))
hear-second c (suc k) w h = refl

proto_loop-put_version :
    (c : MsgChannel) (v : ℕ) (rest : Bytes)
    → IsWord v
    → protocol_failed c.protocol ≡ false
    → proto_loop true c (put_version v rest) ≡ (
        let heard = hear_version true v (record c { input = rest }) in
        if heard.0 && is_need_proto heard.1.instate then proto_loop true heard.1 rest else heard)
unfolding proto_loop put_version
proto_loop-put_version c v rest h k = rw (k, read_version v h) refl

first_round :
    (v : ℕ) (rest : Bytes)
    → IsVersion v
    → proto_loop true
        (record (new_channel false true) { input = put_version v rest })
        (put_version v rest)
      ≡ proto_loop true (half_agreed v rest) rest
unfolding new_channel
first_round v rest h =
    proto_loop-put_version (record (new_channel false true) { input = put_version v rest }) v rest
      (omega (arith, h)) refl
    ∙ rw (hear-first v rest h) refl

second_round :
    (v w : ℕ) (behind : Bytes)
    → IsVersion v
    → IsWord w
    → proto_loop true (half_agreed v (put_version w behind)) (put_version w behind)
      ≡ (if w == common v then (true, agreed v behind) else (false, disagreed v behind))
second_round v w behind h k =
    let heard = hear-second (half_agreed v behind) (common v) w (omega (arith, h)) in
    let step = proto_loop-put_version (half_agreed v (put_version w behind)) w behind k refl in
    elim (Bool-cases (w == common v)) [
      | inl same ↦ step ∙ rw (heard, same) refl
      | inr other ↦ step ∙ rw (heard, other) refl
    ]

-- A new channel that hears a version from 21 to 2^20 answers with the smaller of that and its own, and
-- when it hears the same number again it is ready for messages of that version; when it hears
-- another one it is in the error state, for good.
pub opened-agrees :
    (v w : ℕ) (behind : Bytes)
    → IsVersion v
    → IsWord w
    → opened (put_version v (put_version w behind)) ≡ (
        if w == common v then (true, update_len (agreed v behind)) else (false, disagreed v behind))
unfolding update_state new_channel
opened-agrees v w behind h k =
    let both = first_round v (put_version w behind) h ∙ second_round v w behind h k in
    elim (Bool-cases (w == common v)) [
      | inl same ↦ rw (both, same) refl
      | inr other ↦ rw (both, other) refl
    ]

-- A version below 21 or above 2^20 is refused: the channel is in the error state at once.
pub opened-refuses :
    (v : ℕ) (behind : Bytes)
    → IsWord v
    → (v < min_protocol_version) ⊎ (2 ^ 20 < v)
    → ((opened (put_version v behind)).0 ≡ false)
      × ((opened (put_version v behind)).1.instate ≡ in_error)
unfolding update_state new_channel hear_version answer_version
opened-refuses v behind k h =
    let bad : (ltb v min_protocol_version || ltb (2 ^ 20) v) ≡ true = ground (arith, h) in
    let step =
      proto_loop-put_version (record (new_channel false true) { input = put_version v behind }) v
        behind k refl in
    rw (step, bad) (refl, refl)
