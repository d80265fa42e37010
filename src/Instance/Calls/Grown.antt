-- ===== src/Instance/Calls/Grown.antt =====
-- internal/instance: what a run adds to the history of calls.
use podman_api.Common.{
  ◌≡◌, inr, Bool, true, false, ◌∷◌, Option, none, some, String, All, if◌then◌else◌,
}
use podman_api.Instance.{Error, Result, ok, err}
use podman_api.Instance.Calls.{
  Call, step, History, Outside, Run, pure, give_up, fetch, ◌>>=◌, ◌>>◌, ask, note, give_up_if,
  or_give_up, value_or_give_up, require, require_value, note_at, note_failure, collapse,
  give_up_with, Succeeded, Asked,
}

-- The later history is the earlier one with calls put on, all of which pass the test.
pub data Grown (P : Call → Bool) (h : History) : History → Type 0 where
  same : Grown P h h
  more : {c : Call} {h' : History} → P c ≡ true → Grown P h h' → Grown P h (c ∷ h')

pub Grown-trans :
    {P : Call → Bool} {h h' h'' : History} → Grown P h h' → Grown P h' h'' → Grown P h h''
Grown-trans g same = g
Grown-trans g (more p k) = more p (Grown-trans g k)

pub Grown-weaken :
    {P Q : Call → Bool} {h h' : History}
    → ((c : Call) → P c ≡ true → Q c ≡ true)
    → Grown P h h'
    → Grown Q h h'
Grown-weaken f same = same
Grown-weaken f (more {c} p g) = more (f c p) (Grown-weaken f g)

pub Succeeded-Grown :
    {P : Call → Bool} (o : Outside) (c : Call) {h h' : History}
    → Grown P h h'
    → Succeeded o c h
    → Succeeded o c h'
Succeeded-Grown o c same s = s
Succeeded-Grown o c (more p g) s = inr (Succeeded-Grown o c g s)

pub Asked-Grown :
    {P : Call → Bool} (c : Call) {h h' : History} → Grown P h h' → Asked c h → Asked c h'
Asked-Grown c same s = s
Asked-Grown c (more p g) s = inr (Asked-Grown c g s)

pub All-Grown :
    {P : Call → Bool} {h h' : History}
    → Grown P h h'
    → All (λ c. P c ≡ true) h
    → All (λ c. P c ≡ true) h'
All-Grown same s = s
All-Grown (more p g) s = (p, All-Grown g s)

pub record Adds {E A : Type 0} (P : Call → Bool) (m : Run E A) : Type 0 where
  pub at : (h : History) → Grown P h (m h).1

module _ {E A : Type 0} {P : Call → Bool} where
  pub Adds-pure : (a : A) → Adds P (pure {E = E} a)
  Adds-pure a = record { at = λ h. same }

  pub Adds-give_up : (e : E) → Adds P (give_up {A = A} e)
  Adds-give_up e = record { at = λ h. same }

module _ {E A B : Type 0} {P : Call → Bool} where
  Adds-result :
      (r : Result E A) (f : A → Run E B) (h h' : History)
      → Grown P h h'
      → ((a : A) → Adds P (f a))
      → Grown P h (◌>>=◌ (λ _. (r, h')) f h).1
  Adds-result (ok a) f h h' g k = Grown-trans g ((k a).at h')
  Adds-result (err e) f h h' g k = g

  pub Adds-bind :
      (m : Run E A) (f : A → Run E B) → Adds P m → ((a : A) → Adds P (f a)) → Adds P (m >>= f)
  Adds-bind m f am af = record { at = λ h. let (r, h') = m h in Adds-result r f h h' (am.at h) af }

module _ {E B : Type 0} {P : Call → Bool} where
  pub Adds-then : (m : Run E (Unit {0})) (k : Run E B) → Adds P m → Adds P k → Adds P (m >> k)
  Adds-then m k am ak = Adds-bind m (λ _. k) am (λ _. ak)

module _ {E : Type 0} {P : Call → Bool} where
  pub Adds-fetch :
      {A : Type 0} (o : Outside) (c : Call) (value : History → A)
      → P c ≡ true
      → Adds P (fetch {E = E} o c value)
  Adds-fetch o c value p = record { at = λ h. more p same }

  pub Adds-ask : (o : Outside) (c : Call) → P c ≡ true → Adds P (ask {E = E} o c)
  Adds-ask o c p = record { at = λ h. more p same }

  pub Adds-note :
      (name detail : String) → P (step name detail) ≡ true → Adds P (note {E = E} name detail)
  Adds-note name detail p = record { at = λ h. more p same }

  pub Adds-give_up_if : (b : Bool) (e : E) → Adds P (give_up_if b e)
  Adds-give_up_if true e = Adds-give_up e
  Adds-give_up_if false e = Adds-pure tt

  pub Adds-or_give_up : (f : Error → E) (r : Option Error) → Adds P (or_give_up f r)
  Adds-or_give_up f none = Adds-pure tt
  Adds-or_give_up f (some e) = Adds-give_up (f e)

  pub Adds-value_or_give_up :
      {A : Type 0} (f : Error → E) (r : Result Error A) → Adds P (value_or_give_up f r)
  Adds-value_or_give_up f (ok a) = Adds-pure a
  Adds-value_or_give_up f (err e) = Adds-give_up (f e)

  pub Adds-require : (o : Outside) (c : Call) (f : Error → E) → P c ≡ true → Adds P (require o c f)
  Adds-require o c f p = Adds-bind (ask o c) (or_give_up f) (Adds-ask o c p) (Adds-or_give_up f)

  pub Adds-require_value :
      {A : Type 0} (o : Outside) (c : Call) (value : History → A) (f : Error → E)
      → P c ≡ true
      → Adds P (require_value o c value f)
  Adds-require_value o c value f p =
      Adds-bind (fetch o c value) (value_or_give_up f) (Adds-fetch o c value p)
        (Adds-value_or_give_up f)

  pub Adds-note_failure :
      (o : Outside) (name : String) (r : Option Error)
      → ((detail : String) → P (step name detail) ≡ true)
      → Adds P (note_failure {E = E} o name r)
  Adds-note_failure o name none p = Adds-pure tt
  Adds-note_failure o name (some e) p = Adds-note name (o.message e) (p (o.message e))

  pub Adds-note_at :
      (name : String) (detail : History → String)
      → ((text : String) → P (step name text) ≡ true)
      → Adds P (note_at {E = E} name detail)
  Adds-note_at name detail p = record { at = λ h. more (p (detail h)) same }

module _ {E A : Type 0} {P : Call → Bool} where
  pub Adds-if : (b : Bool) (m n : Run E A) → Adds P m → Adds P n → Adds P (if b then m else n)
  Adds-if true m n am an = am
  Adds-if false m n am an = an

  pub Adds-collapse : (m : Run A A) → Adds P m → Adds P (collapse {E = E} m)
  Adds-collapse m am = record { at = am.at }

  pub Adds-give_up_with :
      {F : Type 0} (f : F → E) (m : Run F A) → Adds P m → Adds P (give_up_with f m)
  Adds-give_up_with f m am = record { at = am.at }

pub ruleset adds_rules = (
  Adds-then, Adds-if, Adds-note_at, Adds-note_failure, Adds-collapse, Adds-give_up_with, Adds-pure,
  Adds-give_up, Adds-fetch, Adds-bind, Adds-ask, Adds-note, Adds-give_up_if, Adds-or_give_up,
  Adds-value_or_give_up, Adds-require, Adds-require_value,
)
