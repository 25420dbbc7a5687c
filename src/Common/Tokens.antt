-- ===== src/Common/Tokens.antt =====
-- im-common/src/main/java/com/itrjp/im/common/service/DefaultTokenService.java. The decimal text of a
-- number is the JDK's, as are the digest and its hexadecimal text.
use im_single.Base.{
  same_text, same_text_eq, same_text_refl, ℕ, ◌+◌, ◌%◌, ◌^◌, ◌<◌, ◌≡◌, ◌↔◌, sym, ap, ◌∙◌, arith,
  Outcome, returned, thrown, out_of_fuel, ◌>>=◌, Option, none, some, ◌++◌, Bool, true, false, ◌&&◌,
  and_true,
}
use im_single.Common.Long.{subtract, less_signed}
use im_single.Common.Md5Utils
use im_single.Common.Md5Utils.{Text}

pub record DefaultTokenService : Type 0 where
  pub sign : Text
  pub expire : ℕ

-- `token.equals(...)` of what may be null.
abbrev pub equals : Text → Option Text → Bool
equals token none = false
equals token (some text) = same_text token text

-- With the `long` seconds of the clock.
unfoldable pub check_time : DefaultTokenService → ℕ → ℕ → Bool
check_time this current_time time =
    less_signed current_time ((time + this.expire) % 2 ^ 64)
    && less_signed (subtract time 60) current_time

module _ {Digest : Type 0} (digest : Text → Option Digest) (to_hex : Digest → Text)
    (decimal : ℕ → Text) where
  unfoldable pub create : DefaultTokenService → Text → ℕ → Text → Outcome (Option Text)
  create this channel_id current_time uid =
      Md5Utils.create digest to_hex
        (channel_id ++ (uid ++ (channel_id ++ (decimal current_time ++ this.sign))))

  unfoldable pub check : DefaultTokenService → ℕ → Text → Text → ℕ → Text → Outcome Bool
  check this current_time token channel_id time uid = create this channel_id time uid >>= λ created.
      returned (equals token created && check_time this current_time time)

returned_inj {ℓ} : {A : Type ℓ} {a b : A} → returned a ≡ returned b → a ≡ b
returned_inj h = cc

some_inj : {a b : Text} → some a ≡ some b → a ≡ b
some_inj h = cc

-- What the comparison with a text that may be missing says.
checked_iff :
    (o : Outcome (Option Text)) (token : Text) (in_time : Bool)
    → ((o >>= λ created. returned (equals token created && in_time)) ≡ returned true)
      ↔ ((o ≡ returned (some token)) × (in_time ≡ true))
checked_iff (returned (some text)) token in_time = (
  λ e.
      let (same, now) = and_true (same_text token text) in_time (returned_inj e) in
      (ap (λ t. returned (some t)) (sym (same_text_eq token text same)), now),
  λ (e, now).
      let text_is : text ≡ token = some_inj (returned_inj e) in
      λ i. returned ((ap (same_text token) text_is ∙ same_text_refl token) i && now i),
)
checked_iff (returned none) token in_time = (λ e. cc, λ (e, now). cc)
checked_iff thrown token in_time = (λ e. cc, λ (e, now). cc)
checked_iff out_of_fuel token in_time = (λ e. cc, λ (e, now). cc)

check_time_iff :
    (this : DefaultTokenService) (now time : ℕ)
    → now < 2 ^ 62
    → time < 2 ^ 62
    → this.expire < 2 ^ 62
    → (check_time this now time ≡ true) ↔ ((now < time + this.expire) × (time < now + 60))
unfolding check_time subtract
check_time_iff this now time hn ht he = ground arith

-- A token passes the check for a channel, a user and a time just if it is the one that `create` makes
-- of them, the time is less than `expire` seconds ago and less than 60 seconds ahead. The seconds of the
-- clock, of the token and of `expire` are below 2 ^ 62 and not negative.
pub check-create :
    {Digest : Type 0} (digest : Text → Option Digest) (to_hex : Digest → Text) (decimal : ℕ → Text)
    (this : DefaultTokenService) (now : ℕ) (token channel_id : Text) (time : ℕ) (uid : Text)
    → now < 2 ^ 62
    → time < 2 ^ 62
    → this.expire < 2 ^ 62
    → (check digest to_hex decimal this now token channel_id time uid ≡ returned true) ↔ (
        (create digest to_hex decimal this channel_id time uid ≡ returned (some token))
        × (now < time + this.expire)
        × (time < now + 60))
unfolding check
check-create digest to_hex decimal this now token channel_id time uid hn ht he =
    let made = create digest to_hex decimal this channel_id time uid in
    let texts = checked_iff made token (check_time this now time) in
    let window = check_time_iff this now time hn ht he in
    (
      λ e. let (same, in_time) = texts.0 e in (same, (window.0 in_time).0, (window.0 in_time).1),
      λ (same, early, late). texts.1 (same, window.1 (early, late)),
    )
