-- ===== src/Utils/Words.antt =====
-- Splitting text into words and items.
use ocolos_public.Prelude.{
  ℕ, ◌≡◌, ◌≢◌, refl, ap, ◌∙◌, ◌↔◌, true, false, inl, inr, List, [], ◌∷◌, ◌++◌, Bool-cases, Bytes,
  ◌==◌, ==_iff, All, All-append, append-nil, append_assoc,
}
use mathlib.Core.Path.{subst}
use ocolos_public.Utils.{is_space, flush, words_from, split_line, items_from, split}

-- No char of the word is white space.
abbrev pub IsSolid : Bytes → Type 0
IsSolid w = All (λ c. is_space c ≡ false) w

abbrev pub IsWord : Bytes → Type 0
IsWord w = (w ≢ []) × IsSolid w

abbrev pub IsBlank : Bytes → Type 0
IsBlank s = All (λ c. is_space c ≡ true) s

-- The text goes on with white space, or ends.
abbrev pub Ends : Bytes → Type 0
Ends [] = Unit
Ends (c ∷ s) = is_space c ≡ true

-- `ws` are the runs of the text between white space, in order.
pub data Laid : Bytes → List Bytes → Type 0 where
  blank : {s : Bytes} → IsBlank s → Laid s []
  word :
      {s : Bytes} (gap w rest : Bytes) {ws : List Bytes}
      → IsBlank gap
      → IsWord w
      → Ends rest
      → s ≡ gap ++ (w ++ rest)
      → Laid rest ws
      → Laid s (w ∷ ws)

words_from-IsBlank :
    (gap rest : Bytes) → IsBlank gap → words_from [] (gap ++ rest) ≡ words_from [] rest
unfolding words_from
words_from-IsBlank [] rest h = refl
words_from-IsBlank (c ∷ gap) rest (h, hs) = rw (h, words_from) (words_from-IsBlank gap rest hs)

words_from-IsSolid :
    (tmp w rest : Bytes) → IsSolid w → words_from tmp (w ++ rest) ≡ words_from (tmp ++ w) rest
unfolding words_from
words_from-IsSolid tmp [] rest h = rw append-nil
words_from-IsSolid tmp (c ∷ w) rest (h, hs) =
    rw (h, words_from) (words_from-IsSolid (tmp ++ (c ∷ [])) w rest hs ∙ rw append_assoc)

flush-IsWord : (w : Bytes) (ws : List Bytes) → w ≢ [] → flush w ws ≡ w ∷ ws
unfolding flush
flush-IsWord [] ws ne = absurd (ne refl)
flush-IsWord (c ∷ w) ws ne = refl

words_from-Ends : (w rest : Bytes) → w ≢ [] → Ends rest → words_from w rest ≡ w ∷ words_from [] rest
unfolding words_from
words_from-Ends w [] ne e = flush-IsWord w [] ne
words_from-Ends w (c ∷ rest) ne e = rw (e, words_from) (flush-IsWord w (words_from [] rest) ne)

split_line-Laid : {s : Bytes} {ws : List Bytes} → Laid s ws → words_from [] s ≡ ws
split_line-Laid (blank {s} h) =
    rw (← append-nil s) (words_from-IsBlank s [] h ∙ unfold words_from in refl)
split_line-Laid (word gap w rest hg hw he e l) = rw e (
    words_from-IsBlank gap (w ++ rest) hg
    ∙ words_from-IsSolid [] w rest hw.1
    ∙ words_from-Ends w rest hw.0 he
    ∙ ap (◌∷◌ w) (split_line-Laid l))

IsSolid-concat : (w : Bytes) (c : ℕ) → IsSolid w → is_space c ≡ false → IsSolid (w ++ (c ∷ []))
IsSolid-concat w c h k = All-append _ w (c ∷ []) h (k, tt)

Laid-space : {c : ℕ} {s : Bytes} {ws : List Bytes} → is_space c ≡ true → Laid s ws → Laid (c ∷ s) ws
Laid-space h (blank b) = blank (h, b)
Laid-space {c} h (word gap w rest hg hw he e l) =
    word (c ∷ gap) w rest (h, hg) hw he (ap (◌∷◌ c) e) l

Laid-flush :
    (tmp s : Bytes) {ws : List Bytes}
    → IsSolid tmp
    → Ends s
    → Laid s ws
    → Laid (tmp ++ s) (flush tmp ws)
unfolding flush
Laid-flush [] s h e l = l
Laid-flush (c ∷ tmp) s h e l = word [] (c ∷ tmp) s tt ((λ p. cc), h) e refl l

words_from-Laid : (tmp s : Bytes) → IsSolid tmp → Laid (tmp ++ s) (words_from tmp s)
unfolding words_from
words_from-Laid tmp [] h = Laid-flush tmp [] h tt (blank tt)
words_from-Laid tmp (c ∷ s) h = elim (Bool-cases (is_space c)) [
  | inl space ↦
      rw (space, words_from)
        (Laid-flush tmp (c ∷ s) h space (Laid-space space (words_from-Laid [] s tt)))
  | inr solid ↦
      rw (solid, words_from)
        (rw append_assoc at (words_from-Laid (tmp ++ (c ∷ [])) s (IsSolid-concat tmp c h solid)))
]

-- split_line gives the maximal runs of chars between white space, in order: this list, and no
-- other, is laid out in the text that way.
pub split_line-Laid_iff : (s : Bytes) (ws : List Bytes) → (split_line s ≡ ws) ↔ Laid s ws
unfolding split_line
split_line-Laid_iff s ws = ((λ e. subst (Laid s) e (words_from-Laid [] s tt)), split_line-Laid)

-- Items joined by one delimiter each.
unfoldable pub join : ℕ → List Bytes → Bytes
join delim [] = []
join delim (w ∷ []) = w
join delim (w ∷ v ∷ ws) = w ++ (delim ∷ join delim (v ∷ ws))

abbrev pub IsFree : ℕ → Bytes → Type 0
IsFree delim w = All (λ c. (c == delim) ≡ false) w

-- No item holds the delimiter, and the last one is not empty.
abbrev pub AreItems : ℕ → List Bytes → Type 0
AreItems delim [] = Unit
AreItems delim (w ∷ []) = IsFree delim w × (w ≢ [])
AreItems delim (w ∷ v ∷ ws) = IsFree delim w × AreItems delim (v ∷ ws)

items_from-IsFree :
    (delim : ℕ) (item w rest : Bytes)
    → IsFree delim w
    → items_from delim item (w ++ rest) ≡ items_from delim (item ++ w) rest
unfolding items_from
items_from-IsFree delim item [] rest h = rw append-nil
items_from-IsFree delim item (c ∷ w) rest (h, hs) =
    rw (h, items_from) (items_from-IsFree delim (item ++ (c ∷ [])) w rest hs ∙ rw append_assoc)

items_from-delim :
    (delim : ℕ) (item rest : Bytes)
    → items_from delim item (delim ∷ rest) ≡ item ∷ items_from delim [] rest
unfolding items_from
items_from-delim delim item rest = let same = (==_iff delim delim).1 refl in rw (same, items_from)

items_from-join :
    (delim : ℕ) (ws : List Bytes) → AreItems delim ws → items_from delim [] (join delim ws) ≡ ws
unfolding join
items_from-join delim [] h = unfold items_from in refl
items_from-join delim (w ∷ []) (free, ne) = rw (← append-nil w) (
    items_from-IsFree delim [] w [] free
    ∙ unfold items_from in rw append-nil (flush-IsWord w [] ne))
items_from-join delim (w ∷ v ∷ ws) (free, more) =
    items_from-IsFree delim [] w (delim ∷ join delim (v ∷ ws)) free
    ∙ items_from-delim delim w (join delim (v ∷ ws))
    ∙ ap (◌∷◌ w) (items_from-join delim (v ∷ ws) more)

-- split takes a joined text apart into its items, if none holds the delimiter and the last is not
-- empty.
pub split-join :
    (delim : ℕ) (ws : List Bytes) → AreItems delim ws → split (join delim ws) delim ≡ ws
unfolding split
split-join delim ws h = items_from-join delim ws h
