-- ===== src/Disambiguater/Ambiguate.antt =====
-- `ambiguate` takes a name apart at its braces.
use ag_fs.Base.{
  ℕ, ◌+◌, ◌-◌, ◌%◌, ◌^◌, ◌≤◌, ◌<◌, ◌≡◌, refl, sym, ap, ◌∙◌, ◌⊎◌, [], ◌++◌, length, length-append,
  append_assoc, none, some, take, drop, take-append, drop-append, arith,
}
use ag_fs.Text.{Text, find, sub_size, substr, substr_from}
use ag_fs.Text.Find.{find-append_two, find_in_range}
use ag_fs.Disambiguater.{begin_brace, end_brace, ambiguate}

drop-append_at : (n : ℕ) (xs ys : Text) → n ≡ length xs → drop n (xs ++ ys) ≡ ys
drop-append_at n xs ys e = rw e (drop-append xs ys)

take-append_at : (n : ℕ) (xs ys : Text) → n ≡ length xs → take n (xs ++ ys) ≡ xs
take-append_at n xs ys e = rw e (take-append xs ys)

-- A text of three parts, cut at its places.
module _ (pre server post : Text) where
  abbrev whole : Text
  whole = pre ++ (begin_brace ++ (server ++ (end_brace ++ post)))

  regroup_server : whole ≡ (pre ++ begin_brace) ++ (server ++ (end_brace ++ post))
  regroup_server = sym (append_assoc pre begin_brace (server ++ (end_brace ++ post)))

  regroup_end : whole ≡ (pre ++ (begin_brace ++ server)) ++ (end_brace ++ post)
  regroup_end = sym (append_assoc pre (begin_brace ++ server) (end_brace ++ post))

  regroup_post : whole ≡ ((pre ++ (begin_brace ++ server)) ++ end_brace) ++ post
  regroup_post = regroup_end ∙ sym (append_assoc (pre ++ (begin_brace ++ server)) end_brace post)

  before_end : length (pre ++ (begin_brace ++ server)) ≡ length pre + 2 + length server
  before_end = omega (arith, length-append pre (begin_brace ++ server))

  server_part :
      length server < 2 ^ 64
      → substr whole (length pre + 2) (sub_size (length pre + 2 + length server) (length pre + 2))
        ≡ server
  unfolding substr sub_size
  server_part lt =
      rw
        (
          regroup_server,
          drop-append_at (length pre + 2) (pre ++ begin_brace) (server ++ (end_brace ++ post))
              (omega (arith, length-append pre begin_brace)),
        )
        (take-append_at ((length pre + 2 + length server + 2 ^ 64 - (length pre + 2)) % 2 ^ 64)
          server (end_brace ++ post) (omega arith))

  path_part :
      substr whole 0 (length pre) ++ substr_from whole (length pre + 2 + length server + 2)
      ≡ pre ++ post
  unfolding substr substr_from
  path_part =
      ap (λ l. l ++ drop (length pre + 2 + length server + 2) whole) (take-append pre _)
      ∙ ap (λ l. pre ++ l)
          (rw regroup_post (
            drop-append_at (length pre + 2 + length server + 2)
              ((pre ++ (begin_brace ++ server)) ++ end_brace) post
              (omega
                (arith, before_end, length-append (pre ++ (begin_brace ++ server)) end_brace))))

  -- A name with the braces of a server in it stands for that server, and for the name without the
  -- braces, if no opening brace stands before, and no closing brace before the server's.
  pub ambiguate-braced :
      find begin_brace pre ≡ none
      → find end_brace (pre ++ (begin_brace ++ server)) ≡ none
      → length server < 2 ^ 64
      → ambiguate (pre ++ (begin_brace ++ (server ++ (end_brace ++ post)))) ≡ (server, pre ++ post)
  unfolding ambiguate
  ambiguate-braced h k lt = rw (found_begin, found_end) λ i. (server_part lt i, path_part i)
    where
      found_begin : find begin_brace whole ≡ some (length pre)
      found_begin = find-append_two 123 58 pre (server ++ (end_brace ++ post)) refl h

      found_end : find end_brace whole ≡ some (length pre + 2 + length server)
      found_end =
          ap (find end_brace) regroup_end
          ∙ find-append_two 58 125 (pre ++ (begin_brace ++ server)) post refl k
          ∙ ap some before_end

-- A name without an opening or without a closing brace stands for itself on no particular server.
pub ambiguate-plain :
    (path : Text)
    → (find begin_brace path ≡ none) ⊎ (find end_brace path ≡ none)
    → ambiguate path ≡ ([], path)
unfolding ambiguate
ambiguate-plain path h = ground arith

-- The two positions of substr in `ambiguate` never pass the end of the name, where substr would
-- throw.
pub ambiguate_in_range :
    (path : Text) (begin_position end_position : ℕ)
    → find begin_brace path ≡ some begin_position
    → find end_brace path ≡ some end_position
    → (begin_position + length begin_brace ≤ length path)
      × (end_position + length end_brace ≤ length path)
ambiguate_in_range path begin_position end_position h k =
    (find_in_range begin_brace path begin_position h, find_in_range end_brace path end_position k)
