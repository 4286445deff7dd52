-- ===== src/Prelude/Result.antt =====
-- An operation's answer: its value, or the error that it returns.
use mathlib.Core.Path.{◌≡◌, refl, ap}
use mathlib.Core.Logic.{◌⊎◌, inl, inr}
use mathlib.Core.Bool.{Bool, true, false}
use mathlib.Core.Option.{Option, none, some}

pub data Result (E A : Type 0) : Type 0 where
  ok : A → Result E A
  fail : E → Result E A

infixl 5 ◌>>=◌ ◌>>◌
unfoldable pub ◌>>=◌ : {E A B : Type 0} → Result E A → (A → Result E B) → Result E B
ok a >>= f = f a
fail e >>= f = fail e

abbrev pub ◌>>◌ : {E A B : Type 0} → Result E A → Result E B → Result E B
m >> k = m >>= λ _. k

-- `if (!test) return { ok: false, error }`
abbrev pub unless : {E : Type 0} → Bool → E → Result E (Unit {0})
unless true e = ok tt
unless false e = fail e

abbrev pub get_or : {E A : Type 0} → Option A → E → Result E A
get_or (some a) e = ok a
get_or none e = fail e

pub ok-injective : {E A : Type 0} {a b : A} → Path (Result E A) (ok a) (ok b) → a ≡ b
ok-injective h = cc

pub fail-ne-ok : {E A B : Type 0} {e : E} {a : A} → Path (Result E A) (fail e) (ok a) → B
fail-ne-ok h = cc

-- An inner error as an error of the caller.
abbrev pub map_error : {E F A : Type 0} → (E → F) → Result E A → Result F A
map_error f (ok a) = ok a
map_error f (fail e) = fail (f e)

pub map_error-eq-ok :
    {E F A : Type 0} (f : E → F) (m : Result E A) {a : A} → map_error f m ≡ ok a → m ≡ ok a
map_error-eq-ok f (ok b) h = ap ok (ok-injective h)
map_error-eq-ok f (fail e) h = fail-ne-ok h

pub bind-eq-ok :
    {E A B : Type 0} (m : Result E A) (f : A → Result E B) {b : B}
    → (m >>= f) ≡ ok b
    → (a : A) × (m ≡ ok a) × (f a ≡ ok b)
unfolding ◌>>=◌
bind-eq-ok (ok a) f h = (a, refl, h)
bind-eq-ok (fail e) f h = cc

pub Result-cases :
    {E A : Type 0} (m : Result E A) → ((a : A) × (m ≡ ok a)) ⊎ ((e : E) × (m ≡ fail e))
Result-cases (ok a) = inl (a, refl)
Result-cases (fail e) = inr (e, refl)

pub get_or-eq-ok : {E A : Type 0} (o : Option A) (e : E) (a : A) → get_or o e ≡ ok a → o ≡ some a
get_or-eq-ok (some x) e a h = cc
get_or-eq-ok none e a h = fail-ne-ok h

pub bind-ok :
    {E A B : Type 0} (m : Result E A) (f : A → Result E B) {a : A} → m ≡ ok a → (m >>= f) ≡ f a
unfolding ◌>>=◌
bind-ok m f h = rw h

pub unless-eq-ok : {E : Type 0} (b : Bool) (e : E) {u : Unit {0}} → unless b e ≡ ok u → b ≡ true
unless-eq-ok true e h = refl
unless-eq-ok false e h = fail-ne-ok h
