-- ===== src/Os/Paths.antt =====
-- Go's package `path/filepath`: a path from its text, and `Join`, which cleans what it joins. A path is
-- the list of its parts, after "/" if it starts at the root.
use Prim.Native.Char.{code}
use Prim.Native.String as S
use tuti_server.Base.{
  String, ◌≡◌, true, List, [], ◌∷◌, ◌++◌, arith, eqb, ◌==◌, ◌||◌, is_plain, is_name, is_name-json,
  parts, parts_plain, if◌then◌else◌,
}
use tuti_server.Os.{FilePath}

-- ".." takes the last part away, if there is one to take.
unfoldable pub up : FilePath → FilePath
up [] = ".." ∷ []
up (x ∷ []) = if x == "/" then "/" ∷ [] else if x == ".." then ".." ∷ ".." ∷ [] else []
up (x ∷ y ∷ p) = x ∷ up (y ∷ p)

unfoldable pub add_part : FilePath → String → FilePath
add_part p x = if x == "" || x == "." then p else if x == ".." then up p else p ++ (x ∷ [])

unfoldable pub add_parts : FilePath → List String → FilePath
add_parts p [] = p
add_parts p (x ∷ xs) = add_parts (add_part p x) xs

-- `filepath.Join`, with its first element as a path
unfoldable pub join : FilePath → List String → FilePath
join p [] = p
join p (e ∷ es) = join (add_parts p (parts e)) es

-- `filepath.Clean`
unfoldable pub clean : String → FilePath
clean S.[] = []
clean (S.◌∷◌ c s) =
    if eqb (code c) 47 then add_parts ("/" ∷ []) (parts s) else add_parts [] (parts (S.◌∷◌ c s))

pub join_name : (p : FilePath) (x : String) → is_name x ≡ true → join p (x ∷ []) ≡ p ++ (x ∷ [])
unfolding join add_parts add_part
join_name p x h = rw (parts_plain x (ground arith)) (ground arith)

-- A file's name is the last part of its path, whatever the directory.
pub join_file :
    (p : FilePath) (kind id : String)
    → is_plain id ≡ true
    → join p (kind ∷ S.◌++◌ id ".json" ∷ []) ≡ join p (kind ∷ []) ++ (S.◌++◌ id ".json" ∷ [])
unfolding join
join_file p kind id h = join_name (add_parts p (parts kind)) (S.◌++◌ id ".json") (is_name-json id h)
