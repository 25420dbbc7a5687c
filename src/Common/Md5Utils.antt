-- ===== src/Common/Md5Utils.antt =====
-- im-common/src/main/java/com/itrjp/im/common/util/Md5Utils.java. The digest of a text, `none` for an
-- algorithm that is not there, and the hexadecimal text of a digest are the JDK's.
use im_single.Base.{
  ℕ, zero, suc, ◌+◌, ◌*◌, ◌≤◌, ◌<◌, ◌≡◌, refl, ap, ◌∙◌, arith, Outcome, returned, out_of_fuel,
  ◌>>=◌, Option, none, some, List, [], ◌∷◌, ◌++◌, length, ltb, if◌then◌else◌, if_elim, if_present,
  length-append, ◌⊎◌, inl, inr,
}

abbrev pub Text : Type 0
Text = List ℕ

-- The character `0`.
abbrev pub zero_digit : ℕ
zero_digit = 48

-- `hashtext.append("0").append(hashtext)`: the second call appends the text with its new digit.
unfoldable pub append_zero_and_itself : Text → Text
append_zero_and_itself hashtext = (hashtext ++ (zero_digit ∷ [])) ++ (hashtext ++ (zero_digit ∷ []))

-- `while (hashtext.length() < 32)`, for so many rounds.
unfoldable pub pad : ℕ → Text → Outcome Text
pad zero hashtext = out_of_fuel
pad (suc fuel) hashtext =
    let rest = pad fuel (append_zero_and_itself hashtext) in
    if ltb (length hashtext) 32 then rest else returned hashtext

-- A text is 32 characters long after as many rounds, since each makes it longer.
unfoldable pub create :
    {Digest : Type 0} → (Text → Option Digest) → (Digest → Text) → Text → Outcome (Option Text)
create digest to_hex input =
    if_present (digest input) (λ d. pad 33 (to_hex d) >>= λ hashtext. returned (some hashtext))
      (returned none)

length-append_zero_and_itself : (t : Text) → length (append_zero_and_itself t) ≡ 2 * (length t + 1)
unfolding append_zero_and_itself
length-append_zero_and_itself t =
    let both = length-append (t ++ (zero_digit ∷ [])) (t ++ (zero_digit ∷ [])) in
    let one = length-append t (zero_digit ∷ []) in omega arith

-- What the loop makes of a text: a long one stays, and a shorter one becomes long enough, in one round
-- if it has half the characters.
abbrev pub IsPadded : Text → Text → Type 0
IsPadded t r =
    ((32 ≤ length t) × (r ≡ t))
    ⊎ ((length t < 32) × (32 ≤ length r) × ((length t < 16) ⊎ (length r ≡ 2 * (length t + 1))))

IsPadded-grown : (t r : Text) → length t < 32 → IsPadded (append_zero_and_itself t) r → IsPadded t r
IsPadded-grown t r short (inl (long, same)) =
    inr
      (short, omega (arith, ap length same), inr (ap length same ∙ length-append_zero_and_itself t))
IsPadded-grown t r short (inr (below, enough, how)) =
    inr (short, enough, inl (omega (arith, length-append_zero_and_itself t)))

pad-IsPadded :
    (fuel : ℕ) (t : Text)
    → 32 ≤ length t + fuel
    → (r : Text) × (pad (suc fuel) t ≡ returned r) × IsPadded t r
unfolding pad
pad-IsPadded zero t h =
    if_elim (λ (o : Outcome Text). (r : Text) × (o ≡ returned r) × IsPadded t r) (ltb (length t) 32)
      (λ short. absurd (ground arith)) (λ long. (t, refl, inl (ground arith, refl)))
pad-IsPadded (suc fuel) t h =
    let grown = length-append_zero_and_itself t in
    let (r, e, padded) = pad-IsPadded fuel (append_zero_and_itself t) (omega arith) in
    if_elim (λ (o : Outcome Text). (r : Text) × (o ≡ returned r) × IsPadded t r) (ltb (length t) 32)
      (λ short. (r, e, IsPadded-grown t r (ground arith) padded))
      (λ long. (t, refl, inl (ground arith, refl)))

-- For a digest that is there, the loop ends and `create` returns a text: the hexadecimal text of the
-- digest itself if that has at least 32 characters, and otherwise one of at least 32 characters, which
-- has twice as many as the hexadecimal text and two more if that has 16 or more.
pub create-IsPadded :
    {Digest : Type 0} (digest : Text → Option Digest) (to_hex : Digest → Text) (input : Text)
    (d : Digest)
    → digest input ≡ some d
    → (r : Text) × (create digest to_hex input ≡ returned (some r)) × IsPadded (to_hex d) r
unfolding create
create-IsPadded digest to_hex input d found =
    let (r, e, padded) = pad-IsPadded 32 (to_hex d) (omega arith) in
    (
      r,
      ap
            (λ o.
              if_present o (λ d. pad 33 (to_hex d) >>= λ hashtext. returned (some hashtext))
                (returned none))
            found
          ∙ ap (λ o. o >>= λ hashtext. returned (some hashtext)) e,
      padded,
    )
