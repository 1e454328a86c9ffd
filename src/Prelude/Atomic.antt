-- ===== src/Prelude/Atomic.antt =====
-- Calls that write nothing, and calls that write nothing when they raise.
use mathlib.Core.Path.{◌≡◌, refl, ◌∙◌}
use mathlib.Core.Bool.{Bool, true, false}
use mathlib.Core.Option.{Option, none, some}
use native.Mathlib.Omega.{arith}
use personal_ai_brain.Prelude.Calls.{
  Exec, Result, ok, err, pure, raise, gets, or_raise, raise_if, settle, transaction, continue,
  ◌>>=◌,
}

pub record IsReadOnly {S E A : Type 0} (m : Exec S E A) : Type 0 where
  pub same : (s : S) → (m s).1 ≡ s

pub record IsAtomic {S E A : Type 0} (m : Exec S E A) : Type 0 where
  pub undone : (s : S) (e : E) → (m s).0 ≡ err e → (m s).1 ≡ s

module _ {S E A : Type 0} where
  pub pure-IsReadOnly : (a : A) → IsReadOnly {S = S} {E = E} (pure a)
  pure-IsReadOnly a = record { same = λ s. refl }

  pub raise-IsReadOnly : (e : E) → IsReadOnly {S = S} {A = A} (raise e)
  raise-IsReadOnly e = record { same = λ s. refl }

  pub gets-IsReadOnly : (f : S → A) → IsReadOnly {E = E} (gets f)
  gets-IsReadOnly f = record { same = λ s. refl }

  pub or_raise-IsReadOnly : (o : Option A) (e : E) → IsReadOnly {S = S} (or_raise o e)
  or_raise-IsReadOnly none e = record { same = λ s. refl }
  or_raise-IsReadOnly (some a) e = record { same = λ s. refl }

  pub IsReadOnly-IsAtomic : (m : Exec S E A) → IsReadOnly m → IsAtomic m
  IsReadOnly-IsAtomic m h = record { undone = λ s e k. h.same s }

  settle_undone :
      (before : S) (r : Result E A × S) (e : E)
      → (settle before r).0 ≡ err e
      → (settle before r).1 ≡ before
  settle_undone before (ok a, after) e h = absurd (ground arith)
  settle_undone before (err x, after) e h = refl

  pub transaction-IsAtomic : (m : Exec S E A) → IsAtomic (transaction m)
  transaction-IsAtomic m = record { undone = λ s e h. settle_undone s (m s) e h }

module _ {S E : Type 0} where
  pub raise_if-IsReadOnly : (b : Bool) (e : E) → IsReadOnly {S = S} (raise_if b e)
  raise_if-IsReadOnly true e = record { same = λ s. refl }
  raise_if-IsReadOnly false e = record { same = λ s. refl }

module _ {S E A B : Type 0} where
  continue_same :
      (f : A → Exec S E B) (s : S) (r : Result E A × S)
      → r.1 ≡ s
      → ((a : A) → IsReadOnly (f a))
      → (continue r f).1 ≡ s
  continue_same f s (ok a, t) h k = (k a).same t ∙ h
  continue_same f s (err e, t) h k = h

  pub bind-IsReadOnly :
      (m : Exec S E A) (f : A → Exec S E B)
      → IsReadOnly m
      → ((a : A) → IsReadOnly (f a))
      → IsReadOnly (m >>= f)
  bind-IsReadOnly m f h k = record { same = λ s. continue_same f s (m s) (h.same s) k }

  continue_undone :
      (f : A → Exec S E B) (s : S) (r : Result E A × S) (e : E)
      → r.1 ≡ s
      → ((a : A) → IsAtomic (f a))
      → (continue r f).0 ≡ err e
      → (continue r f).1 ≡ s
  continue_undone f s (ok a, t) e h k j = (k a).undone t e j ∙ h
  continue_undone f s (err x, t) e h k j = h

  pub bind-IsAtomic :
      (m : Exec S E A) (f : A → Exec S E B)
      → IsReadOnly m
      → ((a : A) → IsAtomic (f a))
      → IsAtomic (m >>= f)
  bind-IsAtomic m f h k = record { undone = λ s e j. continue_undone f s (m s) e (h.same s) k j }

module _ {S E A B : Type 0} (C : S → Type 0) (f : A → Exec S E B) (s : S) where
  continue_after :
      (r : Result E A × S) → r.1 ≡ s → C s → ((a : A) → C (f a s).1) → C (continue r f).1
  continue_after (ok a, t) h c k = rw h (k a)
  continue_after (err e, t) h c k = rw h c

  -- A statement about the state behind a sequence whose first call writes nothing.
  pub bind_after :
      (m : Exec S E A) → IsReadOnly m → C s → ((a : A) → C (f a s).1) → C ((m >>= f) s).1
  bind_after m h c k = continue_after (m s) (h.same s) c k

-- A call whose result does not depend on the state either.
pub record IsPure {S E A : Type 0} (m : Exec S E A) : Type 0 where
  pub value : Result E A
  pub everywhere : (s : S) → m s ≡ (value, s)

module _ {S E A : Type 0} where
  pub pure-IsPure : (a : A) → IsPure {S = S} {E = E} (pure a)
  pure-IsPure a = record { value = ok a; everywhere = λ s. refl }

  pub or_raise-IsPure : (o : Option A) (e : E) → IsPure {S = S} (or_raise o e)
  or_raise-IsPure none e = record { value = err e; everywhere = λ s. refl }
  or_raise-IsPure (some a) e = record { value = ok a; everywhere = λ s. refl }

module _ {S E : Type 0} where
  pub raise_if-IsPure : (b : Bool) (e : E) → IsPure {S = S} (raise_if b e)
  raise_if-IsPure true e = record { value = err e; everywhere = λ s. refl }
  raise_if-IsPure false e = record { value = ok tt; everywhere = λ s. refl }

module _ {S E A B : Type 0} (m : Exec S E A) (f : A → Exec S E B) where
  bind-IsPure_from :
      (r : Result E A) → ((s : S) → m s ≡ (r, s)) → ((a : A) → IsPure (f a)) → IsPure (m >>= f)
  bind-IsPure_from (ok a) h k = record {
    value = (k a).value;
    everywhere = λ s. rw (h s) ((k a).everywhere s);
  }
  bind-IsPure_from (err e) h k = record { value = err e; everywhere = λ s. rw (h s) }

  pub bind-IsPure : IsPure m → ((a : A) → IsPure (f a)) → IsPure (m >>= f)
  bind-IsPure h k = bind-IsPure_from h.value h.everywhere k

pub ruleset pure_rules = (pure-IsPure, or_raise-IsPure, raise_if-IsPure, bind-IsPure)

module _ {S E A B : Type 0} where
  continue_ok :
      (r : Result E A × S) (f : A → Exec S E B) (b : B) (t : S)
      → continue r f ≡ (ok b, t)
      → (a : A) × (u : S) × (r ≡ (ok a, u)) × (f a u ≡ (ok b, t))
  continue_ok (ok a, u) f b t h = (a, u, refl, h)
  continue_ok (err e, u) f b t h = absurd (ground arith)

  -- Inversion of a sequence that returns.
  pub bind_ok :
      (m : Exec S E A) (f : A → Exec S E B) (s : S) (b : B) (t : S)
      → (m >>= f) s ≡ (ok b, t)
      → (a : A) × (u : S) × (m s ≡ (ok a, u)) × (f a u ≡ (ok b, t))
  bind_ok m f s b t h = continue_ok (m s) f b t h

-- A call whose errors all fail a test, whatever the state.
pub record Avoids {S E A : Type 0} (t : E → Bool) (m : Exec S E A) : Type 0 where
  pub never : (s : S) (e : E) → (m s).0 ≡ err e → t e ≡ false

module _ {S E A : Type 0} where
  pub pure-Avoids : (t : E → Bool) (a : A) → Avoids {S = S} t (pure a)
  pure-Avoids t a = record { never = λ s e h. absurd (ground arith) }

  pub or_raise-Avoids :
      (t : E → Bool) (x : E) (o : Option A) → t x ≡ false → Avoids {S = S} t (or_raise o x)
  or_raise-Avoids t x none d = record { never = λ s e h. (let same : x ≡ e = ground arith in cc) }
  or_raise-Avoids t x (some a) d = record { never = λ s e h. absurd (ground arith) }

module _ {S E : Type 0} where
  pub raise_if-Avoids :
      (t : E → Bool) (x : E) (b : Bool) → t x ≡ false → Avoids {S = S} t (raise_if b x)
  raise_if-Avoids t x true d = record { never = λ s e h. (let same : x ≡ e = ground arith in cc) }
  raise_if-Avoids t x false d = record { never = λ s e h. absurd (ground arith) }

module _ {S E A B : Type 0} where
  pub continue-Avoids :
      (t : E → Bool) (r : Result E A × S) (f : A → Exec S E B)
      → ((e : E) → r.0 ≡ err e → t e ≡ false)
      → ((a : A) → Avoids t (f a))
      → (e : E) → (continue r f).0 ≡ err e
      → t e ≡ false
  continue-Avoids t (ok a, s) f h k e j = (k a).never s e j
  continue-Avoids t (err x, s) f h k e j = h e (ground arith)

  pub bind-Avoids :
      (t : E → Bool) (m : Exec S E A) (f : A → Exec S E B)
      → Avoids t m
      → ((a : A) → Avoids t (f a))
      → Avoids t (m >>= f)
  bind-Avoids t m f h k = record { never = λ s e j. continue-Avoids t (m s) f (h.never s) k e j }

pub ruleset avoid_rules = (pure-Avoids, or_raise-Avoids, raise_if-Avoids, bind-Avoids)

pub ruleset atomic_rules = (
  pure-IsReadOnly, raise-IsReadOnly, gets-IsReadOnly, or_raise-IsReadOnly, raise_if-IsReadOnly,
  bind-IsReadOnly, bind-IsAtomic, transaction-IsAtomic,
)
