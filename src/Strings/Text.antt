-- ===== src/Strings/Text.antt =====
-- kernel/string.c, `strlen` to `strstr`, over lists of bytes that a NUL ends. A string is walked by
-- matching on its bytes: `zero` is the NUL, `suc b` any other byte. A pointer that may be NULL is
-- an `Option`; a result that points into a string is its offset from the start of that string.
pub mod Holds
pub mod Content
pub mod Compare
pub mod Copy
pub mod Search
use mathlib.Core.Option
use dionnex.Base.{
  ℕ, zero, suc, ◌+◌, ◌%◌, ◌&&◌, Bool, true, false, Option, none, some, List, [], ◌∷◌, if◌then◌else◌,
  ◌==◌, ◌>>=◌,
}
use dionnex.Base.Int.{ℤ, pos, negsuc, sub_ℕ}

strlen_from : List ℕ → Option ℕ
strlen_from [] = none
strlen_from (zero ∷ s) = some 0
strlen_from (suc b ∷ s) = do len ← strlen_from s; some (len + 1)

-- `strlen(NULL)` is 0.
pub strlen : Option (List ℕ) → Option ℕ
unfolding strlen_from
strlen none = some 0
strlen (some s) = strlen_from s

-- Copies up to and with the NUL; the result is the object of `dest` afterwards.
pub strcpy : List ℕ → List ℕ → Option (List ℕ)
strcpy dest [] = none
strcpy [] (b ∷ src) = none
strcpy (_ ∷ dest) (zero ∷ src) = some (0 ∷ dest)
strcpy (_ ∷ dest) (suc b ∷ src) = do rest ← strcpy dest src; some (suc b ∷ rest)

-- The second loop of `strncpy`: NULs up to the length.
pad : List ℕ → ℕ → Option (List ℕ)
pad dest zero = some dest
pad [] (suc n) = none
pad (_ ∷ dest) (suc n) = do rest ← pad dest n; some (0 ∷ rest)

pub strncpy : List ℕ → List ℕ → ℕ → Option (List ℕ)
unfolding pad
strncpy dest src zero = some dest
strncpy dest [] (suc n) = none
strncpy dest (zero ∷ src) (suc n) = pad dest (suc n)
strncpy [] (suc b ∷ src) (suc n) = none
strncpy (_ ∷ dest) (suc b ∷ src) (suc n) = do rest ← strncpy dest src n; some (suc b ∷ rest)

strcmp_from : List ℕ → List ℕ → Option ℤ
strcmp_from [] s2 = none
strcmp_from (a ∷ s1) [] = none
strcmp_from (zero ∷ s1) (b ∷ s2) = some (sub_ℕ 0 b)
strcmp_from (suc a ∷ s1) (b ∷ s2) = if suc a == b then strcmp_from s1 s2 else some (sub_ℕ (suc a) b)

-- -1 if a pointer is NULL, else the difference of the first two bytes that differ.
pub strcmp : Option (List ℕ) → Option (List ℕ) → Option ℤ
unfolding strcmp_from
strcmp none s2 = some (negsuc 0)
strcmp (some s1) none = some (negsuc 0)
strcmp (some s1) (some s2) = strcmp_from s1 s2

strncmp_from : List ℕ → List ℕ → ℕ → Option ℤ
strncmp_from s1 s2 zero = some (pos 0)
strncmp_from [] s2 (suc n) = none
strncmp_from (a ∷ s1) [] (suc n) = none
strncmp_from (zero ∷ s1) (b ∷ s2) (suc n) = some (sub_ℕ 0 b)
strncmp_from (suc a ∷ s1) (b ∷ s2) (suc n) =
    if suc a == b then strncmp_from s1 s2 n else some (sub_ℕ (suc a) b)

pub strncmp : Option (List ℕ) → Option (List ℕ) → ℕ → Option ℤ
unfolding strncmp_from
strncmp none s2 n = some (negsuc 0)
strncmp (some s1) none n = some (negsuc 0)
strncmp (some s1) (some s2) n = strncmp_from s1 s2 n

pub strcat : List ℕ → List ℕ → Option (List ℕ)
unfolding strcpy
strcat [] src = none
strcat (zero ∷ dest) src = strcpy (zero ∷ dest) src
strcat (suc b ∷ dest) src = do rest ← strcat dest src; some (suc b ∷ rest)

-- The outer option is the fault, the inner one the NULL that means "not found".
unfoldable pub strchr : List ℕ → ℕ → Option (Option ℕ)
strchr [] c = none
strchr (zero ∷ s) c = if c % 256 == 0 then some (some 0) else some none
strchr (suc b ∷ s) c =
    let rest : Option (Option ℕ) = do found ← strchr s c; some (Option.map suc found)
    in if suc b == c % 256 then some (some 0) else rest

-- `i` is the offset of the pointer, `last` what was found so far.
strrchr_from : List ℕ → ℕ → ℕ → Option ℕ → Option (Option ℕ)
strrchr_from [] c i last = none
strrchr_from (zero ∷ s) c i last = some (if 0 == c % 256 then some i else last)
strrchr_from (suc b ∷ s) c i last =
    strrchr_from s c (i + 1) (if suc b == c % 256 then some i else last)

pub strrchr : List ℕ → ℕ → Option (Option ℕ)
unfolding strrchr_from
strrchr s c = strrchr_from s c 0 none

-- The inner loop of `strstr`: whether the needle ends before a difference.
matches_here : List ℕ → List ℕ → Option Bool
matches_here h [] = none
matches_here [] (b ∷ n) = none
matches_here (a ∷ h) (zero ∷ n) = some true
matches_here (zero ∷ h) (suc b ∷ n) = some false
matches_here (suc a ∷ h) (suc b ∷ n) = if suc a == suc b then matches_here h n else some false

search : List ℕ → List ℕ → Option (Option ℕ)
search [] needle = none
search (zero ∷ h) needle = some none
search (suc a ∷ h) needle =
    let rest : Option (Option ℕ) = do found ← search h needle; some (Option.map suc found)
    in do here ← matches_here (suc a ∷ h) needle; if here then some (some 0) else rest

pub strstr : List ℕ → List ℕ → Option (Option ℕ)
unfolding search matches_here
strstr haystack [] = none
strstr haystack (zero ∷ needle) = some (some 0)
strstr haystack (suc b ∷ needle) = search haystack (suc b ∷ needle)
