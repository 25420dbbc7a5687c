-- ===== src/Proto/Schema/Objects.antt =====
-- An optional object through a function that its plain values determine.
use mathlib.Core.Option
use im_single.Base.{Option, none, some, ◌≡◌, refl, ap}
use im_single.Proto.Schema.Plain.{Plain, wrap, object}

object-injective : (p q : Plain) → object p ≡ object q → p ≡ q
object-injective p q h = cc

pub map-wrap :
    {O A : Type 0} (f : O → A) (g : O → Plain) (w w' : Option O)
    → ((a b : O) → g a ≡ g b → f a ≡ f b)
    → wrap g w ≡ wrap g w'
    → Option.map f w ≡ Option.map f w'
map-wrap f g none none h e = refl
map-wrap f g none (some b) h e = cc
map-wrap f g (some a) none h e = cc
map-wrap f g (some a) (some b) h e = ap some (h a b (object-injective (g a) (g b) e))
