-- ===== src/Instance/Calls/Meets.antt =====
-- internal/instance: what a run ends with, by how it ended and by the calls made so far.
use podman_api.Common.{◌≡◌, ◌⊎◌, inl, Bool, true, false, [], ◌∷◌, Option, none, some, refl}
use podman_api.Instance.{Error, Result, ok, err, OnOk}
use podman_api.Instance.Calls.{
  Call, History, Outside, Run, ◌>>=◌, ◌>>◌, require, require_value, give_up_if, give_up_with,
  then_settle, map_failure, Succeeded, answer, or_give_up, value_or_give_up,
}
use podman_api.Instance.Calls.Grown.{Adds, Grown, same, more}

-- From a history with `Before`, the run ends in `After`, which reads how it ended.
pub record Meets {E A : Type 0} (Before : History → Type 0) (m : Run E A)
    (After : Result E A → History → Type 0) : Type 0 where
  pub at : (h : History) → Before h → After (m h).0 (m h).1

module _ {E A B : Type 0} (Before : History → Type 0) (Mid : Result E A → History → Type 0)
    (After : Result E B → History → Type 0) where
  bind-result :
      (r : Result E A) (f : A → Run E B) (h : History)
      → Mid r h
      → ((e : E) (h : History) → Mid (err e) h → After (err e) h)
      → ((a : A) → Meets (Mid (ok a)) (f a) After)
      → let (r', h') = (◌>>=◌ (λ (_ : History). (r, h)) f) h in After r' h'
  bind-result (ok a) f h mid fails next = (next a).at h mid
  bind-result (err e) f h mid fails next = fails e h mid

  pub Meets-bind :
      (m : Run E A) (f : A → Run E B)
      → Meets Before m Mid
      → ((e : E) (h : History) → Mid (err e) h → After (err e) h)
      → ((a : A) → Meets (Mid (ok a)) (f a) After)
      → Meets Before (m >>= f) After
  Meets-bind m f mm fails next = record {
    at = λ h b. let (r, h') = m h in bind-result r f h' (mm.at h b) fails next;
  }

module _ {E A B : Type 0} (Before : History → Type 0) (After : Result E B → History → Type 0) where
  -- A run that adds only such calls keeps what these calls keep, and fails where that is allowed.
  pub Meets-bind_Adds :
      {P : Call → Bool} (m : Run E A) (f : A → Run E B)
      → Adds P m
      → ((h h' : History) → Grown P h h' → Before h → Before h')
      → ((e : E) (h : History) → Before h → After (err e) h)
      → ((a : A) → Meets Before (f a) After)
      → Meets Before (m >>= f) After
  Meets-bind_Adds m f adds keeps fails next = record {
    at = λ h b. let (r, h') = m h in kept r h' (keeps h h' (adds.at h) b);
  }
    where
      kept :
          (r : Result E A) (h' : History)
          → Before h'
          → let (s, t) = (◌>>=◌ (λ (_ : History). (r, h')) f) h' in After s t
      kept (ok a) h' b = (next a).at h' b
      kept (err e) h' b = fails e h' b

module _ {E A : Type 0} (Before : History → Type 0)
    (Mid After : Result E A → History → Type 0) where
  -- What a run ends in may be weakened, on each way of ending.
  pub Meets-weaken :
      (m : Run E A)
      → Meets Before m Mid
      → ((e : E) (h : History) → Mid (err e) h → After (err e) h)
      → ((a : A) (h : History) → Mid (ok a) h → After (ok a) h)
      → Meets Before m After
  Meets-weaken m mm fails returns = record {
    at = λ h b. let (r, h') = m h in either r h' (mm.at h b);
  }
    where
      either : (r : Result E A) (h : History) → Mid r h → After r h
      either (ok a) h x = returns a h x
      either (err e) h x = fails e h x

module _ {E F A B : Type 0} (Before : History → Type 0) (Mid : Result E A → History → Type 0)
    (After : Result F B → History → Type 0) where
  pub Meets-settle :
      (m : Run E A) (k : Result E A → Run F B)
      → Meets Before m Mid
      → ((r : Result E A) → Meets (Mid r) (k r) After)
      → Meets Before (then_settle m k) After
  Meets-settle m k mm next = record { at = λ h b. let (r, h') = m h in (next r).at h' (mm.at h b) }

-- What holds of a history holds after any further call.
abbrev pub IsStable : (History → Type 0) → Type 0
IsStable B = (c : Call) (h : History) → B h → B (c ∷ h)

pub IsStable-Grown :
    (B : History → Type 0) {P : Call → Bool} {h h' : History}
    → IsStable B
    → Grown P h h'
    → B h
    → B h'
IsStable-Grown B stable same b = b
IsStable-Grown B stable (more {c} {h'} p g) b = stable c h' (IsStable-Grown B stable g b)

-- The call is in the history, and gave the value.
abbrev pub Got : {A : Type 0} → Outside → Call → (History → A) → A → History → Type 0
Got o c value a [] = ⊥
Got o c value a (d ∷ h) = ((d ≡ c) × (o.fails h d ≡ none) × (value h ≡ a)) ⊎ Got o c value a h

module _ {E : Type 0} (B : History → Type 0) (stable : IsStable B) (o : Outside) (c : Call)
    (f : Error → E) where
  require-result :
      (h : History) (r : Option Error)
      → o.fails h c ≡ r
      → B h
      → let (s, t) = or_give_up f r (c ∷ h) in B t × OnOk (λ _. Succeeded o c t) s
  require-result h none e b = (stable c h b, inl (refl, e))
  require-result h (some x) e b = (stable c h b, tt)

  pub Meets-require : Meets B (require o c f) (λ r h. B h × OnOk (λ _. Succeeded o c h) r)
  Meets-require = record { at = λ h b. require-result h (o.fails h c) refl b }

  module _ {A : Type 0} (value : History → A) where
    value-result :
        (h : History) (r : Option Error)
        → o.fails h c ≡ r
        → B h
        → let (s, t) = value_or_give_up f (answer r (value h)) (c ∷ h) in
          B t × OnOk (λ a. Got o c value a t) s
    value-result h none e b = (stable c h b, inl (refl, e, refl))
    value-result h (some x) e b = (stable c h b, tt)

    pub Meets-require_value :
        Meets B (require_value o c value f) (λ r h. B h × OnOk (λ a. Got o c value a h) r)
    Meets-require_value = record { at = λ h b. value-result h (o.fails h c) refl b }

module _ {E F A : Type 0} (Before Kept : History → Type 0) (Value : A → History → Type 0) where
  -- To change what a run gives up with changes nothing else.
  pub Meets-give_up_with :
      (f : E → F) (m : Run E A)
      → Meets Before m (λ r h. Kept h × OnOk (λ a. Value a h) r)
      → Meets Before (give_up_with f m) (λ r h. Kept h × OnOk (λ a. Value a h) r)
  Meets-give_up_with f m mm = record { at = λ h b. let (r, h') = m h in mapped r h' (mm.at h b) }
    where
      mapped :
          (r : Result E A) (h : History)
          → Kept h × OnOk (λ a. Value a h) r
          → Kept h × OnOk (λ a. Value a h) (map_failure f r)
      mapped (ok a) h x = x
      mapped (err e) h x = x

module _ {E A : Type 0} (B : History → Type 0) (After : Result E A → History → Type 0) where
  -- A fact that does not depend on the history.
  pub Meets-given :
      (P : Type 0) (m : Run E A) → (P → Meets B m After) → Meets (λ h. B h × P) m After
  Meets-given P m f = record { at = λ h x. (f x.1).at h x.0 }

module _ {E : Type 0} (B : History → Type 0) where
  pub Meets-give_up_if :
      (b : Bool) (e : E) → Meets B (give_up_if b e) (λ r h. B h × OnOk (λ _. b ≡ false) r)
  Meets-give_up_if true e = record { at = λ h x. (x, tt) }
  Meets-give_up_if false e = record { at = λ h x. (x, refl) }

-- The run returns, and this holds.
abbrev pub Returning : {E A : Type 0} → (History → Type 0) → Result E A → History → Type 0
Returning B (ok a) h = B h
Returning B (err e) h = ⊥

module _ {F A : Type 0} (Before B : History → Type 0) (After : Result F A → History → Type 0) where
  -- A run that always returns is followed by what comes next.
  pub Meets-then :
      (m : Run F (Unit {0})) (k : Run F A)
      → Meets Before m (Returning B)
      → Meets B k After
      → Meets Before (m >> k) After
  Meets-then m k mm next =
      Meets-bind Before (Returning B) After m (λ _. k) mm (λ e h x. absurd x) (λ _. next)

module _ {E : Type 0} (B : History → Type 0) where
  Returning-of_ok : (r : Result E (Unit {0})) (h : History) → r ≡ ok tt → B h → Returning B r h
  Returning-of_ok (ok _) h e b = b
  Returning-of_ok (err x) h e b = cc

  -- A run that returns whatever is answered, and adds only such calls.
  pub Meets-quiet :
      {P : Call → Bool} (m : Run E (Unit {0}))
      → Adds P m
      → ((h : History) → (m h).0 ≡ ok tt)
      → ((h h' : History) → Grown P h h' → B h → B h')
      → Meets B m (Returning B)
  Meets-quiet m adds quiet keeps = record {
    at = λ h b. let (r, h') = m h in Returning-of_ok r h' (quiet h) (keeps h h' (adds.at h) b);
  }
