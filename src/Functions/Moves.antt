-- ===== src/Functions/Moves.antt =====
-- run_llvmbolt: what the table holds at an address.
use ocolos_public.Prelude.{
  ℕ, List, [], ◌∷◌, ◌≡◌, refl, sym, ◌∙◌, inl, inr, Option, none, some, if◌then◌else◌, Bytes, codes,
  str_eq, lookup, lookup-assign, Bool-cases, Holds, Holds-bind, Holds-map, Safe, Safe-bind, Outcome,
  done, exited, undefined, All, false, [], arith,
}
use ocolos_public.Utils.{split_line, convert_str_2_long}
use ocolos_public.Functions.{FuncInfo, Funcs, bolt_words, bolt_lines, run_llvmbolt}
use ocolos_public.Functions.Symbols.{at_addr, or_else}

-- The move that a line of llvm-bolt declares: a marked line of six words or more.
abbrev move_of : FuncInfo → List Bytes → Option FuncInfo
move_of fresh (mark ∷ name ∷ orig ∷ moved ∷ orig_size ∷ moved_size ∷ more) =
    if str_eq mark (codes "@@@@")
    then some (record fresh {
      func_name = name;
      orig_addr_str = orig;
      moved_addr_str = moved;
      original_addr = convert_str_2_long orig;
      moved_addr = convert_str_2_long moved;
      original_size = convert_str_2_long orig_size;
      moved_size = convert_str_2_long moved_size;
    })
    else none
move_of fresh _ = none

-- The last move that the lines declare for the address.
unfoldable pub last_move : FuncInfo → ℕ → List Bytes → Option FuncInfo
last_move fresh a [] = none
last_move fresh a (line ∷ lines) =
    or_else (last_move fresh a lines) (at_addr a (move_of fresh (split_line line)) none)

lookup-bolt_words :
    (fresh : FuncInfo) (a : ℕ) (m : Funcs) (ws : List Bytes)
    → Holds
        (λ m'. lookup a m' ≡ or_else (at_addr a (move_of fresh ws) none) (lookup a m))
        (bolt_words fresh m ws)
unfolding bolt_words
lookup-bolt_words fresh a m (mark ∷ name ∷ o ∷ n ∷ os ∷ ns ∷ more) =
    elim (Bool-cases (str_eq mark (codes "@@@@"))) [
      | inl marked ↦ rw (marked) (
          ground (
            arith,
            lookup-assign (convert_str_2_long o) a
                (record fresh {
                  func_name = name;
                  orig_addr_str = o;
                  moved_addr_str = n;
                  original_addr = convert_str_2_long o;
                  moved_addr = convert_str_2_long n;
                  original_size = convert_str_2_long os;
                  moved_size = convert_str_2_long ns;
                })
                m,
          ))
      | inr plain ↦ rw plain refl
    ]
lookup-bolt_words fresh a m [] = refl
lookup-bolt_words fresh a m (mark ∷ []) = refl
lookup-bolt_words fresh a m (mark ∷ name ∷ _) = elim (Bool-cases (str_eq mark (codes "@@@@"))) [
  | inl marked ↦ rw marked tt
  | inr plain ↦ rw plain refl
]

or_else_assoc : (x y z : Option FuncInfo) → or_else (or_else x y) z ≡ or_else x (or_else y z)
or_else_assoc none y z = refl
or_else_assoc (some f) y z = refl

lookup-bolt_lines :
    (fresh : FuncInfo) (a : ℕ) (m : Funcs) (lines : List Bytes)
    → Holds
        (λ m'. lookup a m' ≡ or_else (last_move fresh a lines) (lookup a m))
        (bolt_lines fresh m lines)
unfolding bolt_lines last_move
lookup-bolt_lines fresh a m [] = refl
lookup-bolt_lines fresh a m (line ∷ lines) =
    let move = at_addr a (move_of fresh (split_line line)) none in
    Holds-bind (λ m'. lookup a m' ≡ or_else move (lookup a m)) _ _ _
      (lookup-bolt_words fresh a m (split_line line))
      (λ m' e.
        Holds-map _ _ (bolt_lines fresh m' lines) (lookup-bolt_lines fresh a m' lines)
          (λ m'' e'. e' ∙ rw e (sym (or_else_assoc (last_move fresh a lines) move (lookup a m)))))

-- A function that llvm-bolt reports as moved is found with the data of the last line that reports
-- it; a function that it does not report is not in the table.
pub run_llvmbolt-last_move :
    (fresh : FuncInfo) (lines : List Bytes) (a : ℕ)
    → Holds (λ m. lookup a m ≡ last_move fresh a lines) (run_llvmbolt fresh (some lines))
unfolding run_llvmbolt lookup
run_llvmbolt-last_move fresh lines a =
    Holds-map _ _ (bolt_lines fresh [] lines) (lookup-bolt_lines fresh a [] lines)
      (λ m e. e ∙ or_else-none (last_move fresh a lines))
  where
    or_else-none : (x : Option FuncInfo) → or_else x none ≡ x
    or_else-none none = refl
    or_else-none (some f) = refl

-- A line of llvm-bolt that reports a move has all its six words.
abbrev pub IsComplete : List Bytes → Type 0
IsComplete (mark ∷ name ∷ orig ∷ moved ∷ orig_size ∷ moved_size ∷ more) = Unit
IsComplete (mark ∷ name ∷ more) = str_eq mark (codes "@@@@") ≡ false
IsComplete _ = Unit

bolt_words_defined :
    (fresh : FuncInfo) (m : Funcs) (ws : List Bytes)
    → IsComplete ws
    → Safe ⊥ (λ m'. Unit) (bolt_words fresh m ws)
unfolding bolt_words
bolt_words_defined fresh m (mark ∷ name ∷ o ∷ n ∷ os ∷ ns ∷ more) h =
    elim (Bool-cases (str_eq mark (codes "@@@@"))) [ inl e ↦ rw e tt | inr e ↦ rw e tt ]
bolt_words_defined fresh m [] h = tt
bolt_words_defined fresh m (mark ∷ []) h = tt
bolt_words_defined fresh m (mark ∷ name ∷ []) h = rw h tt
bolt_words_defined fresh m (mark ∷ name ∷ a ∷ []) h = rw h tt
bolt_words_defined fresh m (mark ∷ name ∷ a ∷ b ∷ []) h = rw h tt
bolt_words_defined fresh m (mark ∷ name ∷ a ∷ b ∷ c ∷ []) h = rw h tt

bolt_lines_defined :
    (fresh : FuncInfo) (m : Funcs) (lines : List Bytes)
    → All (λ line. IsComplete (split_line line)) lines
    → Safe ⊥ (λ m'. Unit) (bolt_lines fresh m lines)
unfolding bolt_lines
bolt_lines_defined fresh m [] h = tt
bolt_lines_defined fresh m (line ∷ lines) (h, hs) =
    Safe-bind ⊥ _ _ (bolt_words fresh m (split_line line)) _
      (bolt_words_defined fresh m (split_line line) h)
      (λ m' _. bolt_lines_defined fresh m' lines hs)

-- If every line that reports a move has its six words, run_llvmbolt returns a table: a function that
-- llvm-bolt reports as moved is found with the data of the last line that reports it, and a function
-- that it does not report is not in the table.
pub run_llvmbolt-moves :
    (fresh : FuncInfo) (lines : List Bytes) (a : ℕ)
    → All (λ line. IsComplete (split_line line)) lines
    → Safe ⊥ (λ m. lookup a m ≡ last_move fresh a lines) (run_llvmbolt fresh (some lines))
unfolding run_llvmbolt
run_llvmbolt-moves fresh lines a h =
    both _ (bolt_lines fresh [] lines) (bolt_lines_defined fresh [] lines h)
      (run_llvmbolt-last_move fresh lines a)
  where
    both : (P : Funcs → Type 0) (m : Outcome Funcs) → Safe ⊥ (λ _. Unit) m → Holds P m → Safe ⊥ P m
    both P (done x) s p = p
    both P exited s p = s
    both P undefined s p = s
