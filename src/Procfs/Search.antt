-- ===== src/Procfs/Search.antt =====
-- Which process get_vpp_pid finds, and what it answers if there is none.
use mathlib.Core.List.{append-nil}
use archived_sweetcomb.Prelude.{
  ℕ, zero, suc, ◌<◌, String, Bool, true, false, not, ◌&&◌, ◌||◌, ◌≡◌, refl, sym, ◌∙◌, ap, ◌≢◌, ◌⊎◌,
  inl, inr, List, [], ◌∷◌, ◌++◌, arith, ◌==◌, eqb, if◌then◌else◌, length, All, Bool-cases,
}
use archived_sweetcomb.Prefix.{CInt}
use archived_sweetcomb.Procfs.{
  codes, take, same_bytes, Dirent, FileSystem, esrch, vpp_full_path, read_size, up_to_delimiter,
  first_token, names_vpp, next, vpp_pid, atoi, look_at_text, is_nil, look_at_file, look_at,
  pid_loop, last_errno, read_errno, cmdline_path, find_vpp,
}

same_bytes-take :
    (n : ℕ) (text word : List ℕ)
    → length word < n
    → same_bytes (up_to_delimiter (take n text)) word ≡ same_bytes (up_to_delimiter text) word
unfolding same_bytes up_to_delimiter
same_bytes-take zero text word h = absurd (omega arith)
same_bytes-take (suc n) [] word h = refl
same_bytes-take (suc n) (c ∷ text) [] h = ground arith
same_bytes-take (suc n) (c ∷ text) (w ∷ word) h =
    ground (arith, same_bytes-take n text word (omega arith))

-- The 13 bytes that are read are enough: if a command line does not begin with a space, the test
-- made on them is that of the whole command line.
pub names_vpp-take :
    (c : ℕ) (cs : List ℕ)
    → c ≢ b' '
    → names_vpp (first_token (take read_size (c ∷ cs))) ≡ names_vpp (first_token (c ∷ cs))
unfolding names_vpp first_token
names_vpp-take c cs h =
    rw (not_space, same_bytes-take read_size (c ∷ cs) (codes "vpp") (omega arith))
      (ap (λ b. same_bytes (up_to_delimiter (c ∷ cs)) (codes "vpp") || b)
        (same_bytes-take read_size (c ∷ cs) (codes vpp_full_path) (omega arith)))
  where
    not_space : eqb c b' ' ≡ false
    not_space = ground arith

-- The process of an entry of /proc is VPP: the entry is a directory and none of the two dots, and
-- the bytes that are read of its command line name VPP.
names_file : ℕ ⊎ List ℕ → Bool
names_file (inl failed) = false
names_file (inr bytes) = names_vpp (first_token (take read_size bytes))

module _ (fs : FileSystem) where
  abbrev pub cmdline_of : Dirent → ℕ ⊎ List ℕ
  cmdline_of e = fs.fopen (cmdline_path e)

  unfoldable pub is_vpp : Dirent → Bool
  unfolding names_file
  is_vpp e = not (e.d_name == "." || e.d_name == "..") && (e.is_dir && names_file (cmdline_of e))

  -- The errno that a round leaves behind if it returns no pid.
  abbrev errno_of : ℕ → ℕ ⊎ List ℕ → ℕ
  errno_of errno (inl failed) = failed
  errno_of errno (inr bytes) = if is_nil (first_token (take read_size bytes)) then errno else 0

  abbrev pub errno_after : Dirent → ℕ → ℕ
  errno_after e errno =
      if e.d_name == "." || e.d_name == ".."
      then errno
      else if not e.is_dir
      then errno
      else errno_of (read_errno fs (cmdline_path e) errno) (cmdline_of e)

  look_at_text-eq :
      (d_name : String) (errno : ℕ) (text : List ℕ)
      → look_at_text d_name errno text ≡ (
          if names_vpp (first_token text)
          then vpp_pid (atoi d_name)
          else next (if is_nil (first_token text) then errno else 0))
  unfolding look_at_text
  look_at_text-eq d_name errno [] = refl
  look_at_text-eq d_name errno (c ∷ cs) = from_token (first_token (c ∷ cs))
    where
      from_token :
          (token : List ℕ)
          → (if is_nil token
              then next errno
              else if names_vpp token
              then vpp_pid (atoi d_name)
              else next 0)
            ≡ (if names_vpp token
                then vpp_pid (atoi d_name)
                else next (if is_nil token then errno else 0))
      from_token [] = refl
      from_token (t ∷ token) = refl

  look_at_file-eq :
      (d_name : String) (errno : ℕ) (file : ℕ ⊎ List ℕ)
      → look_at_file fs d_name errno file
        ≡ (if names_file file then vpp_pid (atoi d_name) else next (errno_of errno file))
  unfolding look_at_file names_file
  look_at_file-eq d_name errno (inl failed) = refl
  look_at_file-eq d_name errno (inr bytes) = look_at_text-eq d_name errno (take read_size bytes)

  look_at-eq :
      (e : Dirent) (errno : ℕ)
      → look_at fs e errno
        ≡ (if is_vpp e then vpp_pid (atoi e.d_name) else next (errno_after e errno))
  unfolding look_at is_vpp
  look_at-eq e errno =
      ground (arith, look_at_file-eq e.d_name (read_errno fs (cmdline_path e) errno) (cmdline_of e))

  -- The errno behind entries that are not VPP.
  abbrev pub errno_behind : List Dirent → ℕ → ℕ
  errno_behind [] errno = errno
  errno_behind (e ∷ es) errno = errno_behind es (errno_after e errno)

  pid_loop-append :
      (before behind : List Dirent) (errno : ℕ)
      → All (λ e. is_vpp e ≡ false) before
      → pid_loop fs (before ++ behind) errno ≡ pid_loop fs behind (errno_behind before errno)
  unfolding pid_loop
  pid_loop-append [] behind errno h = refl
  pid_loop-append (e ∷ before) behind errno h =
      rw (look_at-eq e errno, h.0, pid_loop)
        (pid_loop-append before behind (errno_after e errno) h.1)

  module _ (errno : ℕ) (before : List Dirent) (others : All (λ e. is_vpp e ≡ false) before) where
    -- If /proc has an entry of VPP, the answer is the number that the name of the first such entry
    -- writes, and the directory is closed.
    pub get_vpp_pid-found :
        (e : Dirent) (behind : List Dirent)
        → fs.opendir ≡ inr (before ++ e ∷ behind)
        → is_vpp e ≡ true
        → find_vpp fs errno ≡ (atoi e.d_name, false)
    unfolding find_vpp pid_loop
    get_vpp_pid-found e behind opened h =
        rw (opened, find_vpp)
          (pid_loop-append before (e ∷ behind) errno others
            ∙ rw (look_at-eq e (errno_behind before errno), h, pid_loop) refl)

    -- If no entry is one of VPP, the answer is -errno where errno is not 0 behind the last readdir, and -ESRCH
    -- only where it is 0. So without an error of readdir it is the error of fopen or of fread if that was
    -- the last thing to set errno. With -errno the directory stays open, with -ESRCH it is closed.
    pub get_vpp_pid-missed :
        fs.opendir ≡ inr before
        → find_vpp fs errno ≡ (
            if eqb (last_errno fs (errno_behind before errno)) 0
            then ((true, esrch), false)
            else ((true, last_errno fs (errno_behind before errno)), true))
    unfolding find_vpp pid_loop
    get_vpp_pid-missed opened =
        rw (opened, find_vpp)
          (ap (λ es. pid_loop fs es errno) (sym (append-nil before))
            ∙ pid_loop-append before [] errno others
            ∙ ends (last_errno fs (errno_behind before errno)))
      where
        stuck : ℕ → CInt × Bool
        stuck last = ((true, last), true)

        ends :
            (last : ℕ)
            → (if not (eqb last 0) then stuck last else ((true, esrch), false))
              ≡ (if eqb last 0 then ((true, esrch), false) else stuck last)
        ends last = elim (Bool-cases (eqb last 0)) [
          | inl zero_errno ↦ rw zero_errno refl
          | inr set ↦ rw set refl
        ]
