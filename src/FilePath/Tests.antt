-- ===== src/FilePath/Tests.antt =====
-- Runs of the path functions on concrete inputs.
use pfortainer.Base.{◌≡◌, refl, some, [], codes, text_eq, has_prefix, last_index, split, All}
use pfortainer.FilePath.{
  root, names, push, print, rooted, resolve, clean, join, dir_of, base, trim_slashes, clean_path,
  safe_path, parent_dir, is_abs, IsName, push_relative, resolve_relative, relative,
}
use pfortainer.FilePath.Resolve.{clean_path_resolves}

clean_up : clean_path (codes "/etc/../../usr//./local/") ≡ codes "/usr/local"
unfolding clean_path clean names resolve push print rooted split text_eq has_prefix
clean_up = refl

clean_relative : safe_path (codes "../a/b") ≡ some (codes "/a/b")
unfolding safe_path clean_path clean names resolve push print rooted split text_eq is_abs has_prefix
clean_relative = refl

join_up : join (codes "/usr/local") (codes "..") ≡ codes "/usr"
unfolding join clean names resolve push print rooted split text_eq has_prefix
join_up = refl

base_of_dir : base (codes "/usr/local//") ≡ codes "local"
unfolding base trim_slashes last_index text_eq
base_of_dir = refl

base_of_root : base (codes "///") ≡ root
unfolding base trim_slashes last_index text_eq
base_of_root = refl

parent_of_root : parent_dir root ≡ []
unfolding parent_dir dir_of clean names resolve push print rooted split text_eq last_index
    has_prefix
parent_of_root = refl

-- Of a relative path Clean keeps the leading "..".
clean_below : clean (codes "a/.././../b") ≡ codes "../b"
unfolding clean push_relative resolve_relative relative push print split text_eq has_prefix
clean_below = refl

clean_path_resolves_example :
    (safe_path (codes "usr/../x") ≡ some (clean_path (codes "usr/../x")))
    × (clean_path (clean_path (codes "usr/../x")) ≡ clean_path (codes "usr/../x"))
    × (clean_path (codes "usr/../x") ≡ rooted (names (codes "usr/../x")))
    × All IsName (names (codes "usr/../x"))
clean_path_resolves_example = clean_path_resolves (codes "usr/../x")
