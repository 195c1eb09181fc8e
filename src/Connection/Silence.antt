-- ===== src/Connection/Silence.antt =====
-- What the calls of a client come to when nothing arrives on the socket any more: the peer is gone,
-- or every read runs into the time limit that connect sets.
use ag_fs.Base.{◌≡◌, refl, ◌⊎◌, inl, inr, List, [], ℕ, ℤ, pos, negsuc, is_neg, min_ℤ, if◌then◌else◌}
use ag_fs.Words.{Endian, little, big, store, load, betoh, bswap, le_bytes, of_le, to_word, of_word}
use ag_fs.Monad.{M, pure, ◌>>=◌}
use ag_fs.Monad.Results.{Ensures, Ensures-if, Ensures-bind, Any}
use ag_fs.Os.{Os}
use ag_fs.Stat.{Stat, zero_stat}
use ag_fs.Text.{Text}
use ag_fs.Io.{overlay, read_object, agfs_read_size, agfs_read_error, agfs_read_stat, read_member}
use ag_fs.Io.Faults.{Gone}
use ag_fs.Connection.{ServerConnection, getattr, readdir, read_entries, read_file, open_path}

-- A stat struct of which nothing is set but the members that agfs_read_stat reads first.
abbrev pub IsBlank : Stat → Type 0
IsBlank st = st ≡ record zero_stat { st_dev = st.st_dev; st_mode = st.st_mode }

zero-betoh : (e : Endian) → betoh e 8 (load e (store e 8 0)) ≡ 0
unfolding betoh load store bswap le_bytes of_le
zero-betoh little = refl
zero-betoh big = refl

module _ (os : Os) (fd : ℤ) (gone : Gone os fd) where
  -- The object keeps what it held.
  read_object_gone : (n : ℕ) (old : List ℕ) (s : os.State) → (read_object os fd n old s).0.1 ≡ old
  unfolding read_object overlay ◌>>=◌
  read_object_gone n old s = elim (gone n s) [ inl failed ↦ rw failed | inr ended ↦ rw ended ]

  read_nothing_gone :
      (s : os.State)
      → ((read_object os fd 0 [] s).0 ≡ (pos 0, []))
        ⊎ ((read_object os fd 0 [] s).0 ≡ (negsuc 0, []))
  unfolding read_object overlay ◌>>=◌
  read_nothing_gone s = elim (gone 0 s) [
    | inl failed ↦ inr (rw failed refl)
    | inr ended ↦ inl (rw ended refl)
  ]

  agfs_read_error_gone : (s : os.State) → (agfs_read_error os fd (pos 0) s).0.1 ≡ pos 0
  unfolding agfs_read_error ◌>>=◌ to_word of_word
  agfs_read_error_gone s = rw (read_object_gone, zero-betoh) refl

  agfs_read_size_gone : (s : os.State) → (agfs_read_size os fd 0 s).0.1 ≡ 0
  unfolding agfs_read_size ◌>>=◌
  agfs_read_size_gone s = rw (read_object_gone, zero-betoh) refl

  read_member_gone : (s : os.State) → (read_member os fd 8 (store os.endian 8 0) s).0.1 ≡ 0
  unfolding read_member ◌>>=◌
  read_member_gone s = rw (read_object_gone, zero-betoh) refl

  abbrev Blank : ℤ × Stat → Type 0
  Blank r = IsBlank r.1

  -- A step of agfs_read_stat: a failed read ends it with a zeroed struct.
  member_gone :
      (Q : ℕ → Type 0) (m : M os.State (ℤ × ℕ)) (k : ℤ × ℕ → M os.State (ℤ × Stat))
      → Ensures (λ r. Q r.1) m
      → ((temp : ℤ) (v : ℕ) → Q v → Ensures Blank (k (temp, v)))
      → Ensures Blank (m >>= λ r. if is_neg r.0 then pure (r.0, zero_stat) else k r)
  member_gone Q m k kept rest =
      Ensures-bind Blank (λ r. Q r.1) m _ kept
        λ r q. Ensures-if Blank (is_neg r.0) _ _ (λ s. refl) (rest r.0 r.1 q)

  agfs_read_stat_gone : Ensures Blank (agfs_read_stat os fd)
  unfolding agfs_read_stat
  agfs_read_stat_gone =
      Ensures-bind Blank Any _ _ (λ s. tt)
        λ junk _.
          member_gone (λ v. Any v) _ _ (λ s. tt)
            λ _ dev _.
              Ensures-bind Blank Any _ _ (λ s. tt)
                λ junk' _.
                  member_gone (λ v. Any v) _ _ (λ s. tt)
                    λ _ mode _.
                      member_gone (λ v. v ≡ 0) _ _ agfs_read_size_gone
                        λ _ size size_zero.
                          member_gone (λ v. v ≡ 0) _ _ read_member_gone
                            λ _ atime atime_zero.
                              member_gone (λ v. v ≡ 0) _ _ read_member_gone
                                λ _ mtime mtime_zero.
                                  member_gone (λ v. v ≡ 0) _ _ read_member_gone
                                    λ _ ctime ctime_zero s.
                                      rw (size_zero, atime_zero, mtime_zero, ctime_zero) refl

nothing_read :
    (r : ℤ × List ℕ)
    → (r ≡ (pos 0, [])) ⊎ (r ≡ (negsuc 0, []))
    → (r.1 ≡ []) × ((min_ℤ r.0 (pos 0) ≡ pos 0) ⊎ (min_ℤ r.0 (pos 0) ≡ negsuc 0))
nothing_read r (inl ended) = rw ended (refl, inl refl)
nothing_read r (inr failed) = rw failed (refl, inr refl)

module _ (os : Os) (c : ServerConnection) (gone : Gone os c.socket) (path : Text) where
  -- getattr reports success, with a stat that is blank.
  pub getattr_gone :
      (s : os.State) → ((getattr os c path s).0.1 ≡ pos 0) × IsBlank (getattr os c path s).0.0
  unfolding getattr ◌>>=◌
  getattr_gone s =
      rw (agfs_read_error_gone os c.socket gone) (refl, agfs_read_stat_gone os c.socket gone _)

  -- readdir reports success, with no entry.
  pub readdir_gone : (s : os.State) → (readdir os c path s).0 ≡ ([], pos 0)
  unfolding readdir read_entries ◌>>=◌
  readdir_gone s =
      rw (agfs_read_error_gone os c.socket gone, agfs_read_size_gone os c.socket gone) refl

  -- open reports success.
  pub open_path_gone : (flags : ℕ) (s : os.State) → (open_path os c path flags s).0 ≡ pos 0
  unfolding open_path ◌>>=◌
  open_path_gone flags s = rw (agfs_read_error_gone os c.socket gone) refl

  -- readFile has no byte; the result is 0, or -1 where the last read fails.
  pub read_file_gone :
      (size offset : ℕ) (s : os.State)
      → let r = (read_file os c path size offset s).0 in
        (r.0 ≡ []) × ((r.1 ≡ pos 0) ⊎ (r.1 ≡ negsuc 0))
  unfolding read_file ◌>>=◌
  read_file_gone size offset s =
      rw (agfs_read_error_gone os c.socket gone, agfs_read_size_gone os c.socket gone)
        (nothing_read _ (read_nothing_gone os c.socket gone _))
