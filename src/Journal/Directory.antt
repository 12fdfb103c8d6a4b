-- ===== src/Journal/Directory.antt =====
-- A directory of numbered snapshot files, as crates/persistence/src/lib.rs and
-- crates/gateway_server/src/persistence.rs use it: names, the search for the latest file, and the clean-up.
pub mod Names
pub mod Latest
pub mod Written
use high_perf_trading.Base.{
  ℕ, zero, suc, ◌+◌, ◌-◌, ◌*◌, ◌/◌, ◌%◌, Bool, true, false, not, ◌&&◌, ◌||◌, Option, none, some,
  List, [], ◌∷◌, ◌++◌, ltb, leb, ◌==◌, if◌then◌else◌, length,
}

abbrev pub Name : Type 0
Name = List ℕ

-- The files, by their names.
abbrev pub Directory : Type 0
Directory = List (Name × List ℕ)

unfoldable pub same_name : Name → Name → Bool
same_name [] [] = true
same_name (x ∷ a) (y ∷ b) = (x == y) && same_name a b
same_name _ _ = false

-- The order of paths in one directory: that of the bytes of their names.
unfoldable pub leb_name : Name → Name → Bool
leb_name [] b = true
leb_name (x ∷ a) [] = false
leb_name (x ∷ a) (y ∷ b) = if ltb x y then true else (x == y) && leb_name a b

unfoldable pub starts_with : Name → Name → Bool
starts_with [] name = true
starts_with (x ∷ prefix) [] = false
starts_with (x ∷ prefix) (y ∷ name) = (x == y) && starts_with prefix name

unfoldable pub ends_with : Name → Name → Bool
unfolding same_name
ends_with suffix [] = same_name suffix []
ends_with suffix (x ∷ name) = same_name suffix (x ∷ name) || ends_with suffix name

unfoldable pub pow10 : ℕ → ℕ
pow10 zero = 1
pow10 (suc w) = 10 * pow10 w

-- A number in so many decimal digits.
unfoldable pub fixed : ℕ → ℕ → Name
fixed zero n = []
fixed (suc w) n = fixed w (n / 10) ++ (b'0' + n % 10) ∷ []

-- The first width from a number on in which a number fits.
unfoldable pub digits_from : ℕ → ℕ → ℕ → Name
unfolding fixed pow10
digits_from zero w n = fixed w n
digits_from (suc fuel) w n =
    let wider = digits_from fuel (suc w) n in if ltb n (pow10 w) then fixed w n else wider

-- `{:012}`: at least twelve digits; a `u64` has at most twenty.
unfoldable pub padded : ℕ → Name
unfolding digits_from
padded n = digits_from 8 12 n

-- ".bin"
abbrev pub suffix : Name
suffix = b'.' ∷ b'b' ∷ b'i' ∷ b'n' ∷ []

unfoldable pub file_name : Name → ℕ → Name
unfolding padded
file_name prefix sequence = prefix ++ (padded sequence ++ suffix)

abbrev pub is_snapshot : Name → Name → Bool
is_snapshot prefix name = starts_with prefix name && ends_with suffix name

-- The files whose names are a snapshot's.
unfoldable pub snapshots : Name → Directory → Directory
unfolding starts_with ends_with
snapshots prefix [] = []
snapshots prefix (e ∷ d) =
    let rest = snapshots prefix d in if is_snapshot prefix e.0 then e ∷ rest else rest

unfoldable pub without_file : Name → Directory → Directory
unfolding same_name
without_file name [] = []
without_file name (e ∷ d) =
    let rest = without_file name d in if same_name e.0 name then rest else e ∷ rest

-- `File::create` with what is written to it.
unfoldable pub write_file : Name → List ℕ → Directory → Directory
unfolding without_file
write_file name bytes d = without_file name d ++ (name, bytes) ∷ []

-- `sort_by_key` by the path: a stable sort.
unfoldable pub place : Name × List ℕ → Directory → Directory
unfolding leb_name
place e [] = e ∷ []
place e (f ∷ d) = let rest = place e d in if leb_name e.0 f.0 then e ∷ f ∷ d else f ∷ rest

unfoldable pub sort : Directory → Directory
unfolding place
sort [] = []
sort (e ∷ d) = place e (sort d)

unfoldable pub last_file : Directory → Option (Name × List ℕ)
last_file [] = none
last_file (e ∷ []) = some e
last_file (e ∷ f ∷ d) = last_file (f ∷ d)

-- The latest snapshot's file, as `load_latest` finds it.
unfoldable pub latest : Name → Directory → Option (Name × List ℕ)
unfolding snapshots sort last_file
latest prefix d = last_file (sort (snapshots prefix d))

unfoldable pub first_files : ℕ → Directory → Directory
first_files zero d = []
first_files (suc n) [] = []
first_files (suc n) (e ∷ d) = e ∷ first_files n d

-- Removes the files whose removal succeeds, and counts them.
unfoldable pub remove_files : (Name → Bool) → Directory → Directory → ℕ × Directory
unfolding without_file
remove_files removes [] d = (0, d)
remove_files removes (e ∷ es) d =
    if removes e.0
    then (let (n, d') = remove_files removes es (without_file e.0 d) in (suc n, d'))
    else remove_files removes es d

-- `cleanup_old`: how many files it removed, and the directory after it.
unfoldable pub cleanup : Name → (Name → Bool) → ℕ → Directory → ℕ × Directory
unfolding snapshots sort first_files remove_files
cleanup prefix removes keep d =
    let entries = snapshots prefix d in
    if leb (length entries) keep
    then (0, d)
    else remove_files removes (first_files (length entries - keep) (sort entries)) d
