-- ===== src/Usage/Totals.antt =====
-- The totals that src/personal_ai_brain/inference_usage.py counts, under each way of writing a file.
use personal_ai_brain.Prelude.{
  ℕ, ◌+◌, ◌≤◌, String, ◌≡◌, refl, sym, ap, subst, inl, inr, true, Bool-cases, none, some, List, [],
  ◌∷◌, ◌++◌, arith, eq_iff, str_eq, find?-passes, length, All, if◌then◌else◌,
}
use personal_ai_brain.Usage.{
  Turn, UsageRecord, Clock, Root, read, write, provider_of, spent, share, total, append_turn,
  set_last, received, interrupt, recover,
}

pub All-write {κ} :
    (P : UsageRecord → Type κ) (r : UsageRecord) (d : Root) → P r → All P d → All P (write r d)
unfolding write
All-write P r [] h k = (h, tt)
All-write P r (x ∷ xs) h k = elim (Bool-cases (str_eq x.task_id r.task_id)) [
  | inl e ↦ rw e (h, k.1)
  | inr e ↦ rw e (k.0, All-write P r xs h k.1)
]

-- Writing a file again moves the total by what its turns moved.
pub total-write :
    (p m : String) (old r : UsageRecord) (d : Root)
    → read r.task_id d ≡ some old
    → total p m (write r d) + share p m old ≡ total p m d + share p m r
unfolding total write read
total-write p m old r [] h = absurd (ground arith)
total-write p m old r (x ∷ xs) h = elim (Bool-cases (str_eq x.task_id r.task_id)) [
  | inl e ↦
      (let same : x ≡ old = ground arith in
        let moved : share p m x ≡ share p m old = ap (share p m) same in rw e (ground arith))
  | inr e ↦
      (let found : read r.task_id xs ≡ some old = ground arith in
        rw e (ground (arith, total-write p m old r xs found)))
]

pub total-write_new :
    (p m : String) (r : UsageRecord) (d : Root)
    → read r.task_id d ≡ none
    → r.turns ≡ []
    → total p m (write r d) ≡ total p m d
unfolding total write read spent share
total-write_new p m r [] h k = rw k (ground arith)
total-write_new p m r (x ∷ xs) h k = ground (arith, total-write_new p m r xs)

pub spent-append :
    (m : String) (ts : List Turn) (t : Turn)
    → spent m (ts ++ t ∷ []) ≡ spent m ts + (if str_eq t.month m then t.reserved_micro_usd else 0)
unfolding spent
spent-append m [] t = ground arith
spent-append m (x ∷ xs) t = ground (arith, spent-append m xs t)

pub spent-set_last :
    (m : String) (input output : ℕ) (ts : List Turn)
    → spent m (set_last (received input output) ts) ≡ spent m ts
unfolding spent set_last
spent-set_last m i o [] = refl
spent-set_last m i o (t ∷ []) = refl
spent-set_last m i o (t ∷ (u ∷ us)) =
    ap (λ n. (if str_eq t.month m then t.reserved_micro_usd else 0) + n)
      (spent-set_last m i o (u ∷ us))

pub length-set_last : (f : Turn → Turn) (ts : List Turn) → length (set_last f ts) ≡ length ts
unfolding set_last
length-set_last f [] = refl
length-set_last f (t ∷ []) = refl
length-set_last f (t ∷ (u ∷ us)) = ground (arith, length-set_last f (u ∷ us))

pub length-append : (ts : List Turn) (t : Turn) → length (ts ++ t ∷ []) ≡ length ts + 1
length-append [] t = refl
length-append (x ∷ xs) t = ground (arith, length-append xs t)

pub same_share :
    (p m : String) (old r : UsageRecord)
    → provider_of r ≡ provider_of old
    → spent m r.turns ≡ spent m old.turns
    → share p m r ≡ share p m old
unfolding share
same_share p m old r k s = rw (k, s) refl

pub share-append :
    (p m : String) (t : Turn) (r : UsageRecord)
    → share p m (append_turn t r)
      ≤ share p m r + (if str_eq t.month m then t.reserved_micro_usd else 0)
unfolding share
share-append p m t r = ground (arith, spent-append m r.turns t)

pub name_read :
    (id : String) (r : UsageRecord) (d : Root) → read id d ≡ some r → read r.task_id d ≡ some r
unfolding read
name_read id r d h =
    let named : str_eq r.task_id id ≡ true =
      find?-passes (λ (x : UsageRecord). str_eq x.task_id id) d r h in
    subst (λ v. read v d ≡ some r) (sym ((eq_iff r.task_id id).0 named)) h

pub interrupt_same :
    (p : String) (clock : Clock) (r : UsageRecord)
    → ((interrupt p clock r).turns ≡ r.turns) × (provider_of (interrupt p clock r) ≡ provider_of r)
unfolding interrupt
interrupt_same p clock r = elim (Bool-cases (str_eq r.status "reserved")) [
  | inl e ↦ rw e (refl, refl)
  | inr e ↦ rw e (refl, refl)
]

pub All-recover {κ} :
    (P : UsageRecord → Type κ) (p : String) (clock : Clock) (d : Root)
    → ((r : UsageRecord) → P r → P (interrupt p clock r))
    → All P d
    → All P (recover p clock d)
unfolding recover
All-recover P p clock [] k h = h
All-recover P p clock (x ∷ xs) k h = (k x h.0, All-recover P p clock xs k h.1)

pub total-recover :
    (p m : String) (clock : Clock) (d : Root) → total p m (recover p clock d) ≡ total p m d
unfolding total recover
total-recover p m clock [] = refl
total-recover p m clock (x ∷ xs) =
    let same = interrupt_same p clock x in
    let equal : share p m (interrupt p clock x) ≡ share p m x =
      same_share p m x (interrupt p clock x) same.1 (ap (spent m) same.0) in
    ground (arith, total-recover p m clock xs)
