-- ===== src/Paths.antt =====
-- Paths as Go's `path/filepath` handles them on Unix: Clean, Join, Dir and Rel, as far as the program
-- calls them. A path is a text; 47 is the separator.
pub mod Contents
use pmg.Prelude.{
  ℕ, ◌==◌, Bool, true, false, not, ◌&&◌, ◌||◌, Option, none, some, Text, codes, ◌=ₜ◌, is_empty,
  cut_last, split_on, join_with, strip_prefix, List, [], ◌∷◌, ◌++◌, if◌then◌else◌,
}

abbrev pub dot : Text
dot = 46 ∷ []

abbrev pub dot_dot : Text
dot_dot = 46 ∷ 46 ∷ []

abbrev pub is_rooted : Text → Bool
is_rooted [] = false
is_rooted (c ∷ s) = c == 47

-- One `..`: it removes the element in front of it, if there is one that is not `..`; at the root it
-- is dropped. The elements stand in reverse order.
unfoldable pub go_up : Bool → List Text → List Text
go_up rooted [] = if rooted then [] else dot_dot ∷ []
go_up rooted (top ∷ kept) = if top =ₜ dot_dot then dot_dot ∷ top ∷ kept else kept

unfoldable pub clean_step : Bool → Text → List Text → List Text
unfolding go_up
clean_step rooted part kept =
    if is_empty part || part =ₜ dot
    then kept
    else if part =ₜ dot_dot
    then go_up rooted kept
    else part ∷ kept

unfoldable pub clean_loop : Bool → List Text → List Text → List Text
unfolding clean_step
clean_loop rooted [] kept = kept
clean_loop rooted (part ∷ parts) kept = clean_loop rooted parts (clean_step rooted part kept)

unfoldable pub reverse_onto : List Text → List Text → List Text
reverse_onto [] ys = ys
reverse_onto (x ∷ xs) ys = reverse_onto xs (x ∷ ys)

unfoldable pub write_path : Bool → List Text → Text
write_path true parts = 47 ∷ join_with 47 parts
write_path false [] = dot
write_path false (p ∷ ps) = join_with 47 (p ∷ ps)

-- `filepath.Clean`
unfoldable pub clean : Text → Text
unfolding clean_loop reverse_onto write_path
clean s = write_path (is_rooted s) (reverse_onto (clean_loop (is_rooted s) (split_on 47 s) []) [])

-- `filepath.Join` of two elements.
unfoldable pub join_path : Text → Text → Text
unfolding clean
join_path a b = if is_empty a then if is_empty b then [] else clean b else clean (a ++ 47 ∷ b)

-- `filepath.Dir`: what stands before the last separator, and the separator, cleaned.
unfoldable pub dir_of : Option (Text × Text) → Text
unfolding clean
dir_of none = dot
dir_of (some (a, b)) = clean (a ++ 47 ∷ [])

unfoldable pub dir : Text → Text
unfolding dir_of cut_last
dir s = dir_of (cut_last 47 s)

-- `filepath.Rel(root, path)` for a clean path at or below the clean root.
unfoldable pub rel : Text → Text → Option Text
rel root path =
    if root =ₜ path
    then some dot
    else if root =ₜ codes "/"
    then strip_prefix root path
    else strip_prefix (root ++ 47 ∷ []) path
