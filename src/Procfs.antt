-- ===== src/Procfs.antt =====
-- get_vpp_pid of src/plugins/sc_plugins.c, the search for the process of VPP in /proc. A text of the
-- file system is a list of bytes, the directory /proc is the list of its entries, and the global errno
-- is passed along. An int is a sign and a magnitude.
pub mod Search
use archived_sweetcomb.Prelude.{
  ℕ, zero, suc, String, code, ◌<>◌, Bool, true, false, not, ◌&&◌, ◌||◌, ◌⊎◌, inl, inr, Option, none,
  some, List, [], ◌∷◌, ◌==◌, eqb, if◌then◌else◌,
}
use archived_sweetcomb.Prefix.{CInt, stoi}

-- The bytes of an ASCII text.
abbrev pub codes : String → List ℕ
codes String.[] = []
codes (String.◌∷◌ c s) = code c ∷ codes s

abbrev pub take {ℓ} : {A : Type ℓ} → ℕ → List A → List A
take zero xs = []
take (suc n) [] = []
take (suc n) (x ∷ xs) = x ∷ take n xs

-- `strcmp` for equality.
unfoldable pub same_bytes : List ℕ → List ℕ → Bool
same_bytes [] [] = true
same_bytes [] (y ∷ ys) = false
same_bytes (x ∷ xs) [] = false
same_bytes (x ∷ xs) (y ∷ ys) = eqb x y && same_bytes xs ys

-- An entry of /proc: its name, and whether its type is DT_DIR.
pub record Dirent : Type 0 where
  pub d_name : String
  pub is_dir : Bool

-- What the process finds: the errno of opendir or the entries of /proc that readdir yields, the errno
-- with which readdir fails behind them, if it does, and for a path the errno of fopen or the bytes of
-- the file, and the errno with which fread fails behind them, if it does.
pub record FileSystem : Type 0 where
  pub opendir : ℕ ⊎ List Dirent
  pub readdir_error : Option ℕ
  pub fopen : String → ℕ ⊎ List ℕ
  pub fread_error : String → Option ℕ

abbrev pub esrch : ℕ
esrch = 3

-- VPP_FULL_PATH, and the size of that string literal, its NUL included.
abbrev pub vpp_full_path : String
vpp_full_path = "/usr/bin/vpp"

abbrev pub read_size : ℕ
read_size = 13

-- The bytes that strtok skips, and those up to the next delimiter or the end of the C string.
unfoldable pub skip_delimiters : List ℕ → List ℕ
skip_delimiters [] = []
skip_delimiters (c ∷ cs) = let rest = skip_delimiters cs in if eqb c b' ' then rest else c ∷ cs

unfoldable pub up_to_delimiter : List ℕ → List ℕ
up_to_delimiter [] = []
up_to_delimiter (c ∷ cs) =
    let rest = up_to_delimiter cs in if eqb c 0 || eqb c b' ' then [] else c ∷ rest

-- `strtok(filetext, " ")`; the empty list stands for NULL.
unfoldable pub first_token : List ℕ → List ℕ
unfolding skip_delimiters up_to_delimiter
first_token text = up_to_delimiter (skip_delimiters text)

-- `!strcmp(first, "vpp") || !strcmp(first, VPP_FULL_PATH)`
unfoldable pub names_vpp : List ℕ → Bool
unfolding same_bytes
names_vpp first = same_bytes first (codes "vpp") || same_bytes first (codes vpp_full_path)

abbrev pub is_nil : List ℕ → Bool
is_nil [] = true
is_nil (c ∷ cs) = false

-- How a round of the loop ends: the next entry with errno, or the return of a pid.
pub data Look : Type 0 where
  next : ℕ → Look
  vpp_pid : CInt → Look

-- atoi: 0 where no number stands.
unfoldable pub atoi : String → CInt
unfolding stoi
atoi s = elim (stoi s) [ none ↦ (false, 0) | some i ↦ i ]

-- What is made of the text in the buffer, which holds the bytes read and a NUL behind them.
unfoldable pub look_at_text : String → ℕ → List ℕ → Look
unfolding first_token names_vpp atoi
look_at_text d_name errno text =
    if is_nil text
    then next errno
    else if is_nil (first_token text)
    then next errno
    else if names_vpp (first_token text)
    then vpp_pid (atoi d_name)
    else next 0

abbrev pub cmdline_path : Dirent → String
cmdline_path ptr = "/proc/" <> (ptr.d_name <> "/cmdline")

module _ (fs : FileSystem) where
  unfoldable pub look_at_file : String → ℕ → ℕ ⊎ List ℕ → Look
  unfolding look_at_text
  look_at_file d_name errno (inl failed) = next failed
  look_at_file d_name errno (inr bytes) = look_at_text d_name errno (take read_size bytes)

  -- errno behind the fread: as it was, or the error of fread.
  abbrev pub read_errno : String → ℕ → ℕ
  read_errno path errno = elim (fs.fread_error path) [ none ↦ errno | some failed ↦ failed ]

  -- One round of the loop.
  unfoldable pub look_at : Dirent → ℕ → Look
  unfolding look_at_file
  look_at ptr errno =
      if ptr.d_name == "." || ptr.d_name == ".."
      then next errno
      else if not ptr.is_dir
      then next errno
      else look_at_file ptr.d_name (read_errno (cmdline_path ptr) errno)
          (fs.fopen (cmdline_path ptr))

  -- errno behind the readdir that yields no entry: at the end of the directory it stays as it is.
  abbrev pub last_errno : ℕ → ℕ
  last_errno errno = elim fs.readdir_error [ none ↦ errno | some failed ↦ failed ]

  -- The loop and what follows it: the answer, and whether the directory stays open.
  unfoldable pub pid_loop : List Dirent → ℕ → CInt × Bool
  pid_loop [] errno =
      if not (eqb (last_errno errno) 0)
      then ((true, last_errno errno), true)
      else ((true, esrch), false)
  pid_loop (ptr ∷ rest) errno = elim (look_at ptr errno) [
    | next errno' ↦ pid_loop rest errno'
    | vpp_pid pid ↦ (pid, false)
  ]

  -- The function, from the errno that the thread had before, with whether it leaves /proc open.
  unfoldable pub find_vpp : ℕ → CInt × Bool
  unfolding pid_loop
  find_vpp errno = elim fs.opendir [
    | inl failed ↦ ((true, failed), false)
    | inr entries ↦ pid_loop entries errno
  ]

  -- Its answer.
  unfoldable pub get_vpp_pid : ℕ → CInt
  unfolding find_vpp
  get_vpp_pid errno = (find_vpp errno).0
