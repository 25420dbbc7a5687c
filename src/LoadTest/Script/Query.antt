-- ===== src/LoadTest/Script/Query.antt =====
-- The query of the websocket URL, read back.
use im_single.Base.{
  Option, some, none, ap, ◌∙◌, ℕ, Bool, true, List, [], ◌∷◌, ◌++◌, ◌≡◌, refl, returned, ◌==◌,
  ==_refl, ◌&&◌, not, ◌||◌, and_true, eq_false_of_not, if◌then◌else◌,
}
use mathlib.Core.List.{map}
use im_single.LoadTest.Script.{Text, codes, Config, NodeInfo, SetupData, url_of, socket_url}

-- The text behind the first `c`.
abbrev pub behind : ℕ → Text → Text
behind c [] = []
behind c (x ∷ s) = if x == c then s else behind c s

-- The text before the first `c`.
abbrev pub before : ℕ → Text → Text
before c [] = []
before c (x ∷ s) = if x == c then [] else x ∷ before c s

abbrev pub cons_head : ℕ → List Text → List Text
cons_head x [] = (x ∷ []) ∷ []
cons_head x (p ∷ ps) = (x ∷ p) ∷ ps

-- All pieces between the `c`s.
abbrev pub split : ℕ → Text → List Text
split c [] = [] ∷ []
split c (x ∷ s) = if x == c then [] ∷ split c s else cons_head x (split c s)

-- What the decoding of a URL changes or splits at, besides `?`, `&` and `=`.
abbrev pub special : ℕ → Bool
special c = (c == b'%') || ((c == b'+') || ((c == b';') || (c == b'#')))

abbrev pub readable : Text → Bool
readable [] = true
readable (x ∷ s) = not (special x) && readable s

-- The names and values behind the `?` of a URL, as they stand there; none for a URL that a server reads
-- otherwise than by `?`, `&` and `=` alone.
abbrev pub query : Text → Option (List (Text × Text))
query url =
    if readable url
    then some (map (λ p. (before b'=' p, behind b'=' p)) (split b'&' (behind b'?' url)))
    else none

-- The text has no `c`.
abbrev pub free : ℕ → Text → Bool
free c [] = true
free c (x ∷ s) = not (x == c) && free c s

behind-append : (c : ℕ) (s t : Text) → free c s ≡ true → behind c (s ++ t) ≡ behind c t
behind-append c [] t h = refl
behind-append c (x ∷ s) t h =
    let (hx, hs) = and_true (not (x == c)) (free c s) h in
    rw (eq_false_of_not (x == c) hx) (behind-append c s t hs)

split-free : (c : ℕ) (s : Text) → free c s ≡ true → split c s ≡ s ∷ []
split-free c [] h = refl
split-free c (x ∷ s) h =
    let (hx, hs) = and_true (not (x == c)) (free c s) h in
    rw (eq_false_of_not (x == c) hx, split-free c s hs)

split-append : (c : ℕ) (s t : Text) → free c s ≡ true → split c (s ++ c ∷ t) ≡ s ∷ split c t
split-append c [] t h = rw (==_refl c)
split-append c (x ∷ s) t h =
    let (hx, hs) = and_true (not (x == c)) (free c s) h in
    rw (eq_false_of_not (x == c) hx, split-append c s t hs)

readable-append : (s t : Text) → readable s ≡ true → readable (s ++ t) ≡ readable t
readable-append [] t h = refl
readable-append (x ∷ s) t h =
    let (hx, hs) = and_true (not (special x)) (readable s) h in rw hx (readable-append s t hs)

-- Of a part of the URL before its query, and of a value in it.
abbrev pub is_plain : ℕ → Text → Bool
is_plain c s = readable s && free c s

url-readable :
    (n : NodeInfo) (c : Config) (d : SetupData)
    → readable n.protocol ≡ true
    → readable n.address ≡ true
    → readable n.port ≡ true
    → readable c.channel_id ≡ true
    → readable c.user_id ≡ true
    → readable d.token ≡ true
    → readable d.time ≡ true
    → readable (url_of n c d) ≡ true
url-readable n c d hp ha ho hc hu ht hm = rw (
  readable-append n.protocol _ hp,
  readable-append n.address _ ha,
  readable-append n.port _ ho,
  readable-append c.channel_id _ hc,
  readable-append c.user_id _ hu,
  readable-append d.token _ ht,
  hm,
)

-- If `setup` returned a node whose protocol, address and port hold no `?`, and the channel, the user, the
-- token and the time hold no `&`, and none of these holds `%`, `+`, `;` or `#`, then the script connects to
-- a URL without these four, whose query, split at `&` and `=`, has just the parameters `cid`, `uid`, `t`
-- and `tm`, with the four values, whatever other nodes there are.
pub socket_url-query :
    (c : Config) (d : SetupData) (n : NodeInfo) (rest : List NodeInfo)
    → d.node_info ≡ n ∷ rest
    → is_plain b'?' n.protocol ≡ true
    → is_plain b'?' n.address ≡ true
    → is_plain b'?' n.port ≡ true
    → is_plain b'&' c.channel_id ≡ true
    → is_plain b'&' c.user_id ≡ true
    → is_plain b'&' d.token ≡ true
    → is_plain b'&' d.time ≡ true
    → (url : Text) × (socket_url c d ≡ returned url)
      × (query url
          ≡ some (
              (codes "cid", c.channel_id)
              ∷ (codes "uid", c.user_id)
              ∷ (codes "t", d.token)
              ∷ (codes "tm", d.time)
              ∷ []))
unfolding socket_url
socket_url-query c d n rest e pp pa po pc pu pt pm =
    let (rp, hp) = and_true (readable n.protocol) (free b'?' n.protocol) pp in
    let (ra, ha) = and_true (readable n.address) (free b'?' n.address) pa in
    let (ro, ho) = and_true (readable n.port) (free b'?' n.port) po in
    let (rc, hc) = and_true (readable c.channel_id) (free b'&' c.channel_id) pc in
    let (ru, hu) = and_true (readable c.user_id) (free b'&' c.user_id) pu in
    let (rt, ht) = and_true (readable d.token) (free b'&' d.token) pt in
    let (rm, hm) = and_true (readable d.time) (free b'&' d.time) pm in
    (
      url_of n c d,
      rw e,
      ap
            (λ b.
              if b
              then some (
                  map (λ p. (before b'=' p, behind b'=' p))
                    (split b'&' (behind b'?' (url_of n c d))))
              else none)
            (url-readable n c d rp ra ro rc ru rt rm)
          ∙ ap some (
              rw (
                behind-append b'?' n.protocol _ hp,
                behind-append b'?' n.address _ ha,
                behind-append b'?' n.port _ ho,
                split-append b'&' c.channel_id _ hc,
                split-append b'&' c.user_id _ hu,
                split-append b'&' d.token _ ht,
                split-free b'&' d.time hm,
              )),
    )
