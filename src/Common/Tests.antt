-- ===== src/Common/Tests.antt =====
-- Runs of Md5Utils with a digest that is a text of its own, and of the tokens made with it.
use im_single.Base.{
  ℕ, zero, suc, ◌+◌, ◌<◌, ◌≡◌, ◌↔◌, refl, arith, true, Option, some, [], ◌∷◌, ◌++◌, returned,
}
use im_single.Common.Md5Utils.{Text, create, pad, append_zero_and_itself, IsPadded, create-IsPadded}
use im_single.Common.Tokens
use im_single.Common.Tokens.{DefaultTokenService, check-create}

abbrev digits : ℕ → Text
digits zero = []
digits (suc n) = 49 ∷ digits n

-- A digest of 31 digits, which stands for itself.
abbrev digest : Text → Option Text
digest input = some (digits 31)

abbrev to_hex : Text → Text
to_hex d = d

create-IsPadded_example :
    (r : Text) × (create digest to_hex [] ≡ returned (some r)) × IsPadded (digits 31) r
create-IsPadded_example = create-IsPadded digest to_hex [] (digits 31) refl

-- With its first digit left out the text of a digest gets 64 characters, and not 32.
pad-long_text : pad 33 (digits 31) ≡ returned (append_zero_and_itself (digits 31))
unfolding pad append_zero_and_itself
pad-long_text = refl

abbrev service : DefaultTokenService
service = record { sign = 35 ∷ []; expire = 300 }

-- A number as so many ones.
abbrev own_digest : Text → Option Text
own_digest input = some (input ++ digits 32)

-- The token of channel 7 and user 8 at the third second.
abbrev token : Text
token = (55 ∷ 56 ∷ 55 ∷ 49 ∷ 49 ∷ 49 ∷ 35 ∷ []) ++ digits 32

check-create_example :
    (Tokens.check own_digest to_hex digits service 302 token (55 ∷ []) 3 (56 ∷ []) ≡ returned true)
    ↔ ((Tokens.create own_digest to_hex digits service (55 ∷ []) 3 (56 ∷ [])
          ≡ returned (some token))
        × (302 < 3 + 300)
        × (3 < 302 + 60))
check-create_example =
    check-create own_digest to_hex digits service 302 token (55 ∷ []) 3 (56 ∷ []) (omega arith)
      (omega arith) (omega arith)

token-create :
    Tokens.create own_digest to_hex digits service (55 ∷ []) 3 (56 ∷ []) ≡ returned (some token)
unfolding Tokens.create create pad
token-create = refl
