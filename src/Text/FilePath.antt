-- ===== src/Text/FilePath.antt =====
-- Slash-separated paths: Go's path.Clean, path.Join, path.Dir and path.Base.
pub mod Laws
pub mod Plain
use mathlib.Core.List.{reverse}
use flow_pipe.Prelude.{
  ℕ, ◌≡◌, refl, Bool, true, false, ◌&&◌, ◌||◌, List, [], ◌∷◌, ◌++◌, ◌==◌, if◌then◌else◌,
}
use flow_pipe.Text.{Text, codes, text_eq}

abbrev pub slash : ℕ
slash = 47

abbrev pub is_empty : Text → Bool
is_empty [] = true
is_empty (c ∷ s) = false

-- Puts a byte in front of the first segment.
abbrev push : ℕ → List Text → List Text
push c [] = (c ∷ []) ∷ []
push c (w ∷ ws) = (c ∷ w) ∷ ws

-- The segments between the slashes.
unfoldable pub split : Text → List Text
split [] = [] ∷ []
split (c ∷ s) = if c == slash then [] ∷ split s else push c (split s)

-- One `..` on the stack of segments, the last first.
abbrev pop : Bool → List Text → List Text
pop rooted [] = if rooted then [] else codes ".." ∷ []
pop rooted (top ∷ rest) = if text_eq top (codes "..") then codes ".." ∷ top ∷ rest else rest

abbrev clean_step : Bool → List Text → Text → List Text
clean_step rooted stack seg =
    if text_eq seg [] || text_eq seg (codes ".")
    then stack
    else if text_eq seg (codes "..")
    then pop rooted stack
    else seg ∷ stack

unfoldable pub clean_segments : Bool → List Text → List Text → List Text
clean_segments rooted stack [] = reverse stack
clean_segments rooted stack (s ∷ ss) = clean_segments rooted (clean_step rooted stack s) ss

-- Each segment behind a slash.
abbrev pub path_of : List Text → Text
path_of [] = []
path_of (s ∷ ss) = slash ∷ s ++ path_of ss

abbrev pub render : Bool → List Text → Text
render true [] = codes "/"
render true (s ∷ ss) = path_of (s ∷ ss)
render false [] = codes "."
render false (s ∷ ss) = s ++ path_of ss

abbrev pub is_rooted : Text → Bool
is_rooted [] = false
is_rooted (c ∷ s) = c == slash

-- path.Clean
unfoldable pub clean : Text → Text
unfolding split clean_segments text_eq
clean s = render (is_rooted s) (clean_segments (is_rooted s) [] (split s))

-- The loop of path.Join over its arguments, with its buffer.
unfoldable pub join_buffer : Text → List Text → Text
join_buffer buf [] = buf
join_buffer buf (e ∷ es) = join_buffer (if is_empty buf then e else buf ++ slash ∷ e) es

-- path.Join
unfoldable pub path_join : List Text → Text
unfolding clean join_buffer
path_join es = let s = join_buffer [] es in if is_empty s then [] else clean s

-- path.Split's first result: up to the last slash, and with it.
unfoldable pub dir_part : Text → Text
dir_part [] = []
dir_part (c ∷ s) =
    let rest = dir_part s in if is_empty rest then (if c == slash then c ∷ [] else []) else c ∷ rest

-- path.Dir
unfoldable pub path_dir : Text → Text
unfolding clean dir_part
path_dir s = clean (dir_part s)

-- The last segment that is not empty.
unfoldable pub last_segment : Text → List Text → Text
last_segment found [] = found
last_segment found (s ∷ ss) = last_segment (if is_empty s then found else s) ss

-- path.Base
unfoldable pub path_base : Text → Text
unfolding split last_segment
path_base [] = codes "."
path_base (c ∷ s) =
    let found = last_segment [] (split (c ∷ s)) in if is_empty found then codes "/" else found

clean_dots : clean (codes "/a/./b/../c//d/") ≡ codes "/a/c/d"
unfolding clean
clean_dots = refl

clean_up : clean (codes "../x/../..") ≡ codes "../.."
unfolding clean
clean_up = refl

join_base :
    path_base (path_dir (path_join (codes "/a" ∷ codes "" ∷ codes "b" ∷ codes "active" ∷ [])))
    ≡ codes "b"
unfolding path_base path_dir path_join
join_base = refl
