-- ===== src/Config/Paths.antt =====
-- crates/voice_server/src/logging.rs: `normalize_path` and `LogConfig::resolve_relative_paths`, on the
-- paths of Unix. A path that is being built is the list of its components with the last one first.
use voice_ai.Base.{
  Bool, false, ◌||◌, ◌==◌, List, [], ◌∷◌, ◌++◌, map, reverse, is_empty, if◌then◌else◌, Str, str_eq,
  ◌is◌, codes, starts_with, split, join_with,
}
use voice_ai.Config.{LogConfig}

pub data Component : Type 0 where
  root_dir cur_dir parent_dir : Component
  normal : Str → Component

-- `Path::components`: a `.` counts at the very beginning only.
abbrev pub component_of : Str → List Component
component_of s =
    if is_empty s || s is codes "."
    then []
    else if s is codes ".."
    then parent_dir ∷ []
    else normal s ∷ []

abbrev pub components_of : List Str → List Component
components_of [] = []
components_of (s ∷ ss) = component_of s ++ components_of ss

abbrev pub components_from : List Str → List Component
components_from [] = []
components_from (s ∷ ss) =
    (if s is codes "." then cur_dir ∷ [] else component_of s) ++ components_of ss

unfoldable pub components : Str → List Component
components s =
    if starts_with (codes "/") s
    then root_dir ∷ components_of (split (codes "/") s)
    else components_from (split (codes "/") s)

-- `pop`, but for a path that ends in its root
abbrev pub pop : List Component → List Component
pop [] = []
pop (root_dir ∷ out) = root_dir ∷ out
pop (_ ∷ out) = out

abbrev pub push : Component → List Component → List Component
push root_dir out = root_dir ∷ []
push cur_dir out = out
push parent_dir out = pop out
push (normal name) out = normal name ∷ out

abbrev pub push_all : List Component → List Component → List Component
push_all [] out = out
push_all (c ∷ cs) out = push_all cs (push c out)

unfoldable pub normalize_path : List Component → List Component
normalize_path cs = reverse (push_all cs [])

abbrev pub name_of : Component → Str
name_of root_dir = []
name_of cur_dir = codes "."
name_of parent_dir = codes ".."
name_of (normal name) = name

-- The text of a path.
abbrev pub path_text : List Component → Str
path_text (root_dir ∷ []) = codes "/"
path_text cs = join_with (codes "/") (map name_of cs)

abbrev pub ends_in_slash : Str → Bool
ends_in_slash [] = false
ends_in_slash (c ∷ []) = c == b'/'
ends_in_slash (c ∷ s) = ends_in_slash s

-- `Path::join` of a path that is not absolute
abbrev pub join : Str → Str → Str
join base p =
    if is_empty base then p else if ends_in_slash base then base ++ p else base ++ codes "/" ++ p

unfoldable pub resolve_relative_paths : Str → LogConfig → LogConfig
unfolding components normalize_path
resolve_relative_paths base c =
    if is_empty c.file || c.file is codes "stdout" || c.file is codes "stderr"
    then c
    else if starts_with (codes "/") c.file
    then c
    else record c { file = path_text (normalize_path (components (join base c.file))) }
