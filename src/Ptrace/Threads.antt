-- ===== src/Ptrace/Threads.antt =====
-- The list of threads: no thread twice, every thread of the last reading, and an end.
use ocolos_public.Prelude.{
  ℕ, zero, suc, ◌+◌, ◌%◌, ◌^◌, ◌≤◌, ◌<◌, ◌≡◌, refl, sym, ◌∙◌, ◌⊎◌, inl, inr, Bool, true, false, not,
  ◌&&◌, ◌||◌, List, [], ◌∷◌, ◌++◌, Option, some, if◌then◌else◌, Bool-cases, arith, Bytes, Has,
  Has-append, contains, contains_iff, All, done,
}
use ocolos_public.Utils.{is_num, convert_str_2_int}
use ocolos_public.Ptrace.{scan_entries, list_tids}

-- No number stands twice.
abbrev pub Distinct : List ℕ → Type 0
Distinct [] = Unit
Distinct (t ∷ ts) = (contains ts t ≡ false) × Distinct ts

contains-append :
    (xs ys : List ℕ) (a : ℕ) → contains (xs ++ ys) a ≡ (contains xs a || contains ys a)
unfolding contains
contains-append [] ys a = refl
contains-append (x ∷ xs) ys a = ground (arith, contains-append xs ys a)

Distinct-concat :
    (ts : List ℕ) (t : ℕ) → Distinct ts → contains ts t ≡ false → Distinct (ts ++ (t ∷ []))
unfolding contains
Distinct-concat [] t d n = ground arith
Distinct-concat (u ∷ ts) t (h, hs) n =
    ground (arith, Distinct-concat ts t hs, contains-append ts (t ∷ []) u)

-- The thread numbers of the entries that are numbers.
abbrev pub tid_of : Bytes → ℕ
tid_of entry = convert_str_2_int entry % 2 ^ 32

-- How many numbers below a bound are not in the list.
missing : ℕ → List ℕ → ℕ
missing zero ts = 0
missing (suc n) ts = (if contains ts n then 0 else 1) + missing n ts

missing-concat : (n : ℕ) (ts : List ℕ) (t : ℕ) → missing n (ts ++ (t ∷ [])) ≤ missing n ts
unfolding missing contains
missing-concat zero ts t = omega arith
missing-concat (suc n) ts t = ground (arith, missing-concat n ts t, contains-append ts (t ∷ []) n)

missing-concat_lt :
    (n : ℕ) (ts : List ℕ) (t : ℕ)
    → t < n
    → contains ts t ≡ false
    → missing n (ts ++ (t ∷ [])) < missing n ts
unfolding missing contains
missing-concat_lt zero ts t h e = absurd (omega arith)
missing-concat_lt (suc n) ts t h e =
    ground (arith, missing-concat n ts t, missing-concat_lt n ts t, contains-append ts (t ∷ []) n)

missing-le : (n : ℕ) (ts : List ℕ) → missing n ts ≤ n
unfolding missing
missing-le zero ts = omega arith
missing-le (suc n) ts = ground (arith, missing-le n ts)

-- What one pass over the entries gives, from `ts` and the flag `b`.
record Scanned (bound : ℕ) (ts : List ℕ) (b : Bool) (entries : List Bytes) (r : List ℕ × Bool)
    : Type 0 where
  distinct : Distinct ts → Distinct r.0
  keeps : (t : ℕ) → Has t ts → Has t r.0
  finds : All (λ e. is_num e ≡ true → Has (tid_of e) r.0) entries
  fewer : missing bound r.0 ≤ missing bound ts
  -- a raised flag stays; a flag that comes up means one number fewer is missing; else no change
  flag : (b ≡ true → r.1 ≡ true)
  progress :
      All (λ e. is_num e ≡ true → tid_of e < bound) entries
      → r.1 ≡ true
      → (b ≡ true) ⊎ (missing bound r.0 < missing bound ts)
  quiet : r.1 ≡ false → r.0 ≡ ts

scan_entries-Scanned :
    (bound : ℕ) (ts : List ℕ) (b : Bool) (entries : List Bytes)
    → Scanned bound ts b entries (scan_entries ts b entries)
unfolding scan_entries
scan_entries-Scanned bound ts b [] = record {
  distinct = λ d. d;
  keeps = λ t h. h;
  finds = tt;
  fewer = omega arith;
  flag = λ h. h;
  progress = λ h e. inl e;
  quiet = λ e. refl;
}
scan_entries-Scanned bound ts b (entry ∷ entries) =
    elim (Bool-cases (is_num entry && not (contains ts (tid_of entry)))) [
      | inl new ↦
          rw (new) (added new (scan_entries-Scanned bound (ts ++ (tid_of entry ∷ [])) true entries))
      | inr old ↦ rw (old) (passed old (scan_entries-Scanned bound ts b entries))
    ]
  where
    added :
        (is_num entry && not (contains ts (tid_of entry))) ≡ true
        → Scanned bound
            (ts ++ (tid_of entry ∷ []))
            true
            entries
            (scan_entries (ts ++ (tid_of entry ∷ [])) true entries)
        → Scanned bound ts b
            (entry ∷ entries)
            (scan_entries (ts ++ (tid_of entry ∷ [])) true entries)
    added new s =
        let fresh : contains ts (tid_of entry) ≡ false = ground arith in
        record {
          distinct = λ d. s.distinct (Distinct-concat ts (tid_of entry) d fresh);
          keeps = λ t h. s.keeps t ((Has-append t ts (tid_of entry ∷ [])).1 (inl h));
          finds = (
            (λ n.
                s.keeps (tid_of entry)
                  ((Has-append (tid_of entry) ts (tid_of entry ∷ [])).1 (inr (inl refl)))),
            s.finds,
          );
          fewer = omega (arith, s.fewer, missing-concat bound ts (tid_of entry));
          flag = λ h. s.flag refl;
          progress = λ (h, hs) e. inr (
              omega (
                arith,
                s.fewer,
                missing-concat_lt bound ts (tid_of entry) (h (ground arith)) fresh,
              ));
          quiet = λ e. absurd (clash (sym (s.flag refl) ∙ e));
        }
      where
        clash : true ≡ false → ⊥
        clash e = cc

    passed :
        (is_num entry && not (contains ts (tid_of entry))) ≡ false
        → Scanned bound ts b entries (scan_entries ts b entries)
        → Scanned bound ts b (entry ∷ entries) (scan_entries ts b entries)
    passed old s = record {
      distinct = s.distinct;
      keeps = s.keeps;
      finds = (
        (λ n. s.keeps (tid_of entry) ((contains_iff ts (tid_of entry)).0 (ground arith))),
        s.finds,
      );
      fewer = s.fewer;
      flag = s.flag;
      progress = λ (h, hs) e. s.progress hs e;
      quiet = s.quiet;
    }

-- Each reading of the directory gives entries whose thread numbers are below the bound.
abbrev pub AreBelow : ℕ → (ℕ → Option (List Bytes)) → Type 0
AreBelow bound task =
    (n : ℕ)
    → (entries : List Bytes) × (task n ≡ some entries)
      × All (λ e. is_num e ≡ true → tid_of e < bound) entries

-- The list has each thread of the n-th reading, for some n from `from` on.
abbrev pub HasReading : (ℕ → Option (List Bytes)) → List ℕ → ℕ → Type 0
HasReading task tids from =
    (n : ℕ) × (entries : List Bytes) × (from ≤ n)
    × (task n ≡ some entries)
    × All (λ e. is_num e ≡ true → Has (tid_of e) tids) entries

-- A round that finds a new thread goes on, and one that finds none is the last.
list_tids-again :
    (task : ℕ → Option (List Bytes)) (fuel n : ℕ) (ts : List ℕ) (entries : List Bytes)
    → task n ≡ some entries
    → (scan_entries ts false entries).1 ≡ true
    → list_tids task (suc fuel) n ts ≡ list_tids task fuel (n + 1) (scan_entries ts false entries).0
unfolding list_tids
list_tids-again task fuel n ts entries e more = rw (e, list_tids) (rw (more, list_tids))

list_tids-last :
    (task : ℕ → Option (List Bytes)) (fuel n : ℕ) (ts : List ℕ) (entries : List Bytes)
    → task n ≡ some entries
    → (scan_entries ts false entries).1 ≡ false
    → list_tids task (suc fuel) n ts ≡ done (scan_entries ts false entries).0
unfolding list_tids
list_tids-last task fuel n ts entries e last = rw (e, list_tids) (rw (last, list_tids))

list_tids-from :
    (task : ℕ → Option (List Bytes)) (bound fuel n : ℕ) (ts : List ℕ)
    → AreBelow bound task
    → missing bound ts < fuel
    → Distinct ts
    → (tids : List ℕ) × (list_tids task fuel n ts ≡ done tids)
      × Distinct tids
      × HasReading task tids n
list_tids-from task bound zero n ts below m d = absurd (omega arith)
list_tids-from task bound (suc fuel) n ts below m d =
    let (entries, e, low) = below n in
    let s = scan_entries-Scanned bound ts false entries in
    elim (Bool-cases (scan_entries ts false entries).1) [
      | inl more ↦
          let less = fell s low more in
          let (tids, q, distinct, (j, es, le, h, has)) =
            list_tids-from task bound fuel (n + 1) (scan_entries ts false entries).0 below
              (omega (arith, less)) (s.distinct d) in
          (
            tids,
            list_tids-again task fuel n ts entries e more ∙ q,
            distinct,
            (j, es, omega arith, h, has),
          )
      | inr last ↦ (
        (scan_entries ts false entries).0,
        list_tids-last task fuel n ts entries e last,
        s.distinct d,
        (n, entries, omega arith, e, s.finds),
      )
    ]
  where
    clash : false ≡ true → ⊥
    clash e = cc

    fell :
        {entries : List Bytes}
        → Scanned bound ts false entries (scan_entries ts false entries)
        → All (λ e. is_num e ≡ true → tid_of e < bound) entries
        → (scan_entries ts false entries).1 ≡ true
        → missing bound (scan_entries ts false entries).0 < missing bound ts
    fell s low more = elim (s.progress low more) [ inl e ↦ absurd (clash e) | inr h ↦ h ]

-- If every reading of /proc/<pid>/task succeeds and its thread numbers are below a bound, the loop
-- of pause_and_get_tids ends within `bound + 1` readings, however the directory changes between
-- them. Its list has no thread twice, and has every thread of one of the readings.
pub list_tids-ends :
    (task : ℕ → Option (List Bytes)) (bound : ℕ)
    → AreBelow bound task
    → (tids : List ℕ) × (list_tids task (bound + 1) 0 [] ≡ done tids)
      × Distinct tids
      × HasReading task tids 0
list_tids-ends task bound below =
    list_tids-from task bound (bound + 1) 0 [] below (omega (arith, missing-le bound [])) tt
