-- ===== src/Indexer/Sync/History.antt =====
-- Histories of the program's transactions, newest first, and how the RPC lists them.
use mathlib.Core.List.{reverse, reverse-cons}
use axel_sol.Indexer.Feed.{Pages, SignatureInfo, page_size}
use axel_sol.Prelude.{
  ◌≡◌, refl, arith, String, true, false, Option, none, some, List, [], ◌∷◌, ◌++◌, map, append-nil,
  take, All, str_eq, eq_iff, among,
}

abbrev pub names : List SignatureInfo → List String
names infos = map (λ i. i.signature) infos

-- No signature stands twice in the list.
abbrev pub Distinct : List String → Type 0
Distinct [] = Unit
Distinct (x ∷ xs) = (among x xs ≡ false) × Distinct xs

-- The part of a list that is older than a signature.
unfoldable pub past : Option String → List SignatureInfo → List SignatureInfo
past none xs = xs
past (some b) [] = []
past (some b) (x ∷ xs) = elim (str_eq x.signature b) [ true ↦ xs | false ↦ past (some b) xs ]

-- The part of a list that is newer than a signature.
unfoldable pub up_to : Option String → List SignatureInfo → List SignatureInfo
up_to none xs = xs
up_to (some u) [] = []
up_to (some u) (x ∷ xs) = elim (str_eq x.signature u) [ true ↦ [] | false ↦ x ∷ up_to (some u) xs ]

-- The RPC lists the history: newest first, from before one signature up to after the other, and a
-- page of it at a time.
abbrev pub Serves : List SignatureInfo → Pages → Type 0
Serves history pages =
    (before until : Option String)
    → pages before until ≡ some (take page_size (up_to until (past before history)))

pub among-append :
    (s : String) (xs ys : List String)
    → among s xs ≡ false
    → among s ys ≡ false
    → among s (xs ++ ys) ≡ false
unfolding among
among-append s [] ys h k = k
among-append s (x ∷ xs) ys h k = ground (arith, among-append s xs ys)

pub among-reverse :
    (s : String) (xs : List String) → among s xs ≡ false → among s (reverse xs) ≡ false
unfolding among
among-reverse s [] h = refl
among-reverse s (x ∷ xs) h =
    rw (reverse-cons x xs)
      (among-append s (reverse xs) (x ∷ []) (among-reverse s xs (ground arith)) (ground arith))

pub Distinct-drop : (xs ys : List String) → Distinct (xs ++ ys) → Distinct ys
Distinct-drop [] ys d = d
Distinct-drop (x ∷ xs) ys (fresh, d) = Distinct-drop xs ys d

pub fresh-Distinct :
    (xs : List SignatureInfo) (i : SignatureInfo) (older : List SignatureInfo)
    → Distinct (names (xs ++ i ∷ older))
    → among i.signature (names older) ≡ false
fresh-Distinct [] i older d = d.0
fresh-Distinct (x ∷ xs) i older d = fresh-Distinct xs i older d.1

abbrev pub head_signature : List SignatureInfo → Option String
head_signature [] = none
head_signature (x ∷ xs) = some x.signature

pub All-map :
    {A B : Type 0} (P : B → Type 0) (f : A → B) (xs : List A)
    → All P (map f xs)
    → All (λ x. P (f x)) xs
All-map P f [] h = tt
All-map P f (x ∷ xs) (h, hs) = (h, All-map P f xs hs)

pub among_later :
    (x : SignatureInfo) (xs ys : List SignatureInfo) (y : SignatureInfo)
    → among x.signature (names (xs ++ y ∷ ys)) ≡ false
    → str_eq x.signature y.signature ≡ false
unfolding among
among_later x [] ys y h =
    ground (arith, eq_iff x.signature y.signature, eq_iff y.signature x.signature)
among_later x (z ∷ xs) ys y h = among_later x xs ys y (ground arith)

-- What is newer than the first of the older entries.
pub up_to-head :
    (newer older : List SignatureInfo)
    → Distinct (names (newer ++ older))
    → up_to (head_signature older) (newer ++ older) ≡ newer
unfolding up_to
up_to-head newer [] d = append-nil newer
up_to-head [] (y ∷ older) d = ground (arith, eq_iff y.signature y.signature)
up_to-head (x ∷ newer) (y ∷ older) (fresh, d) =
    ground (arith, among_later x newer older y fresh, up_to-head newer (y ∷ older) d)
