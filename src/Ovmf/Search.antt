-- ===== src/Ovmf/Search.antt =====
-- What `find_file` and `detect` of manager/src/ovmf.rs find.
use mochivm.Prelude.{
  ◌≡◌, refl, ◌∙◌, sym, ap, Bool, true, false, ◌&&◌, ◌⊎◌, inl, inr, Option, none, some, List, [],
  ◌∷◌, ◌++◌, String, if◌then◌else◌, find?-holds,
}
use mochivm.Backend.{Result, fine, error, join}
use mochivm.Ovmf.{
  Node, file, directory, Listing, unreadable, end, broken, entry, has_name, find_file, find_entry,
  System, both_exist, candidates, detect_in, detect,
}

-- Every file of a name below a directory, in the order of the listings, directories where they
-- stand.
mutual
  pub all_files : String → Listing → String → List String
  all_files root unreadable name = []
  all_files root end name = []
  all_files root (broken rest) name = all_files root rest name
  all_files root (entry n rest) name = files_at root n name ++ all_files root rest name

  files_at : String → Node → String → List String
  files_at root (file n) name = if has_name n name then join root name ∷ [] else []
  files_at root (directory d l) name = all_files (join root d) l name

-- Whether every directory and every entry can be read.
unfoldable mutual
  pub readable : Listing → Bool
  readable unreadable = false
  readable end = true
  readable (broken rest) = false
  readable (entry n rest) = readable_at n && readable rest

  readable_at : Node → Bool
  readable_at (file n) = true
  readable_at (directory d l) = readable l

abbrev pub first : List String → Option String
first [] = none
first (x ∷ xs) = some x

abbrev or_first : Option String → Option String → Option String
or_first (some x) y = some x
or_first none y = y

first-append : (xs ys : List String) → first (xs ++ ys) ≡ or_first (first xs) (first ys)
first-append [] ys = refl
first-append (x ∷ xs) ys = refl

find_file-entry :
    (root : String) (n : Node) (rest : Listing) (name : String)
    → find_file root (entry n rest) name
      ≡ or_first (find_entry root n name) (find_file root rest name)
unfolding find_file
find_file-entry root n rest name = by (find_entry root n name)
  where
    by :
        (r : Option String)
        → Path
            (Option String)
            (elim r as (λ _. Option String) [
              | some path ↦ some path
              | none ↦ find_file root rest name
            ])
            (or_first r (find_file root rest name))
    by (some x) = refl
    by none = refl

and-true : (a b : Bool) → (a && b) ≡ true → (a ≡ true) × (b ≡ true)
and-true true b e = (refl, e)
and-true false b e = cc

mutual
  unfolding find_file all_files readable

  listing_first :
      (root : String) (l : Listing) (name : String)
      → readable l ≡ true
      → find_file root l name ≡ first (all_files root l name)
  listing_first root unreadable name h = cc
  listing_first root end name h = refl
  listing_first root (broken rest) name h = cc
  listing_first root (entry n rest) name h =
      let both = and-true (readable_at n) (readable rest) h in
      find_file-entry root n rest name
      ∙ ap (λ r. or_first r (find_file root rest name)) (entry_first root n name both.0)
      ∙ ap (λ r. or_first (first (files_at root n name)) r) (listing_first root rest name both.1)
      ∙ sym (first-append (files_at root n name) (all_files root rest name))

  entry_first :
      (root : String) (n : Node) (name : String)
      → readable_at n ≡ true
      → find_entry root n name ≡ first (files_at root n name)
  entry_first root (file n) name h =
      elim (has_name n name)
        as (λ b.
          (if b then some (join root name) else none)
          ≡ first (if b then join root name ∷ [] else [])) [ true ↦ refl | false ↦ refl ]
  entry_first root (directory d l) name h = listing_first (join root d) l name h

-- Below a directory in which everything can be read, `find_file` returns the first of all the files
-- of the name, at any depth, in the order of the listings, and none just when there is none.
pub find_file-first :
    (root : String) (l : Listing) (name : String)
    → readable l ≡ true
    → find_file root l name ≡ first (all_files root l name)
find_file-first root l name h = listing_first root l name h

-- Whether a path is among others.
abbrev pub Among : String → List String → Type 0
Among p [] = ⊥
Among p (q ∷ qs) = (p ≡ q) ⊎ Among p qs

Among-left : (p : String) (xs ys : List String) → Among p xs → Among p (xs ++ ys)
Among-left p [] ys h = elim h [ ]
Among-left p (x ∷ xs) ys (inl e) = inl e
Among-left p (x ∷ xs) ys (inr h) = inr (Among-left p xs ys h)

Among-right : (p : String) (xs ys : List String) → Among p ys → Among p (xs ++ ys)
Among-right p [] ys h = h
Among-right p (x ∷ xs) ys h = inr (Among-right p xs ys h)

or_first-some :
    (a b : Option String) (p : String) → or_first a b ≡ some p → (a ≡ some p) ⊎ (b ≡ some p)
or_first-some (some x) b p e = inl e
or_first-some none b p e = inr e

file-Among :
    (b : Bool) (q p : String)
    → (if b then some q else none) ≡ some p
    → Among p (if b then q ∷ [] else [])
file-Among true q p e = inl (cc)
file-Among false q p e = cc

mutual
  unfolding find_file all_files

  listing-Among :
      (root : String) (l : Listing) (name p : String)
      → find_file root l name ≡ some p
      → Among p (all_files root l name)
  listing-Among root unreadable name p e = cc
  listing-Among root end name p e = cc
  listing-Among root (broken rest) name p e = cc
  listing-Among root (entry n rest) name p e =
      elim (or_first-some _ _ p (sym (find_file-entry root n rest name) ∙ e)) [
        | inl here ↦ Among-left p _ _ (entry-Among root n name p here)
        | inr there ↦ Among-right p (files_at root n name) _ (listing-Among root rest name p there)
      ]

  entry-Among :
      (root : String) (n : Node) (name p : String)
      → find_entry root n name ≡ some p
      → Among p (files_at root n name)
  entry-Among root (file n) name p e = file-Among (has_name n name) (join root name) p e
  entry-Among root (directory d l) name p e = listing-Among (join root d) l name p e

-- Whatever can be read, a path that `find_file` returns is that of a file of the name.
pub find_file-Among :
    (root : String) (l : Listing) (name p : String)
    → find_file root l name ≡ some p
    → Among p (all_files root l name)
find_file-Among root l name p e = listing-Among root l name p e

-- A pair that `detect` returns consists of two files that exist, and it returns one only on a system
-- on which the directory of the executable is known.
pub detect-exists :
    (s : System) (c v : String)
    → detect s ≡ some (c, v)
    → (s.exists c ≡ true) × (s.exists v ≡ true) × (dir : String) × (s.exe_dir ≡ fine (some dir))
unfolding detect detect_in
detect-exists s c v e = by s.exe_dir refl e
  where
    by :
        (r : Result (Option String))
        → s.exe_dir ≡ r
        → detect_in s r ≡ some (c, v)
        → (s.exists c ≡ true) × (s.exists v ≡ true) × (dir : String) × (s.exe_dir ≡ fine (some dir))
    by (error e) q h = cc
    by (fine none) q h = cc
    by (fine (some dir)) q h =
        let both =
          and-true (s.exists c) (s.exists v)
            (find?-holds (both_exist s.exists) (candidates s.windows dir) (c, v) h) in
        (both.0, both.1, dir, q)
