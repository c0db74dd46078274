-- ===== src/Neupak/Archives/Shorter.antt =====
-- Every entry of an archive takes bytes from the file, so that the loops over the entries end.
use packages_repo_main.Neupak.Lines.{c_string}
use packages_repo_main.Neupak.{max_path}
use packages_repo_main.Neupak.Paths.{archive_path_to_final}
use packages_repo_main.Text.{strlcpy, Bytes}
use packages_repo_main.Neupak.Archives.{
  load_le32, read_local_zip_entry, signed_entry, load_le16, ZipEntry, entry_behind, skip_bytes,
  read_exact,
}
use packages_repo_main.Prelude.{
  ◌++◌, not, ◌<◌, leb, inr, [], ◌||◌, inl, zero, ◌==◌, Option-cases, ◌%◌, ◌∷◌, ◌/◌, suc, drop,
  arith, ◌+◌, ◌≤◌, Bool-cases, length, some, ◌≡◌, ℕ,
}

read_exact-shorter :
    (file : Bytes) (len : ℕ) (bytes rest : Bytes)
    → read_exact file len ≡ some (bytes, rest)
    → length rest + len ≡ length file
unfolding read_exact
read_exact-shorter file zero bytes rest e = ground (arith, e)
read_exact-shorter [] (suc len) bytes rest e = absurd (ground (arith, e))
read_exact-shorter (c ∷ cs) (suc len) bytes rest e = elim (Option-cases (read_exact cs len)) [
  | inl n ↦ absurd (ground (arith, e, n))
  | inr ((b, r), n) ↦ ground (arith, e, n, read_exact-shorter cs len b r n)
]

pub skip_bytes-shorter :
    (file : Bytes) (count : ℕ) (rest : Bytes)
    → skip_bytes file count ≡ some rest
    → length rest + count ≡ length file
unfolding skip_bytes
skip_bytes-shorter file zero rest e = ground (arith, e)
skip_bytes-shorter [] (suc count) rest e = absurd (ground (arith, e))
skip_bytes-shorter (c ∷ cs) (suc count) rest e = ground (arith, skip_bytes-shorter cs count rest e)

-- An entry that is read has a final path that was accepted, and leaves less of the file.
pub record IsRead (file : Bytes) (entry : ZipEntry) (rest : Bytes) : Type 0 where
  pub accepted : archive_path_to_final max_path entry.archive_path ≡ some entry.final_path
  pub shorter : length rest ≤ length file

entry_behind-IsRead :
    (header file : Bytes) (entry : ZipEntry) (rest : Bytes)
    → entry_behind header file ≡ some (entry, rest)
    → IsRead file entry rest
unfolding entry_behind
entry_behind-IsRead header file entry rest e =
    elim (Bool-cases (
      load_le16 (drop 6 header) / 8 % 2 == 1
      || load_le16 (drop 26 header) == 0
      || leb max_path (load_le16 (drop 26 header)))) [
        | inl b ↦ absurd (ground (arith, e, b))
        | inr b ↦ elim (Option-cases (read_exact file (load_le16 (drop 26 header)))) [
          | inl n ↦ absurd (ground (arith, e, b, n))
          | inr ((name, after), n) ↦
              elim (Option-cases (skip_bytes after (load_le16 (drop 28 header)))) [
                | inl s ↦ absurd (ground (arith, e, b, n, s))
                | inr (left, s) ↦
                    elim (Option-cases
                      (archive_path_to_final max_path (strlcpy max_path (c_string name)))) [
                        | inl a ↦ absurd (ground (arith, e, b, n, s, a))
                        | inr (final, a) ↦
                            let found : (entry.archive_path ≡ strlcpy max_path (c_string name))
                                × (entry.final_path ≡ final)
                                × (rest ≡ left) =
                              (
                                ground (arith, e, b, n, s, a),
                                ground (arith, e, b, n, s, a),
                                ground (arith, e, b, n, s, a),
                              ) in
                            record {
                              accepted = rw (found.0, found.1) a;
                              shorter = rw found.2 (
                                  ground (
                                    arith,
                                    read_exact-shorter file (load_le16 (drop 26 header)) name after
                                        n,
                                    skip_bytes-shorter after (load_le16 (drop 28 header)) left s,
                                  ));
                            }
                      ]
              ]
        ]
      ]

signed_entry-IsRead :
    (first file : Bytes) (entry : ZipEntry) (rest : Bytes)
    → signed_entry first file ≡ some (some (entry, rest))
    → IsRead file entry rest
unfolding signed_entry
signed_entry-IsRead first file entry rest e =
    elim (Bool-cases (load_le32 first == 33639248 || load_le32 first == 101010256)) [
      | inl k ↦ absurd (ground (arith, e, k))
      | inr k ↦ elim (Bool-cases (not (load_le32 first == 67324752))) [
        | inl m ↦ absurd (ground (arith, e, k, m))
        | inr m ↦ elim (Option-cases (read_exact file 26)) [
          | inl n ↦ absurd (ground (arith, e, k, m, n))
          | inr ((header, left), n) ↦ elim (Option-cases (entry_behind (first ++ header) left)) [
            | inl b ↦ absurd (ground (arith, e, k, m, n, b))
            | inr (read, b) ↦
                let same : read ≡ (entry, rest) = ground (arith, e, k, m, n, b) in
                let good = entry_behind-IsRead (first ++ header) left entry rest (rw same at b) in
                record {
                  accepted = good.accepted;
                  shorter = ground (arith, good.shorter, read_exact-shorter file 26 header left n);
                }
          ]
        ]
      ]
    ]

-- An entry and what it is read from: its final path was accepted, and less of the file is left.
pub read_local_zip_entry-IsRead :
    (file : Bytes) (entry : ZipEntry) (rest : Bytes)
    → read_local_zip_entry file ≡ some (some (entry, rest))
    → (archive_path_to_final max_path entry.archive_path ≡ some entry.final_path)
      × (length rest < length file)
unfolding read_local_zip_entry
read_local_zip_entry-IsRead [] entry rest e = absurd (ground (arith, e))
read_local_zip_entry-IsRead (c ∷ cs) entry rest e = elim (Option-cases (read_exact (c ∷ cs) 4)) [
  | inl n ↦ absurd (ground (arith, e, n))
  | inr ((first, file), n) ↦
      let good = signed_entry-IsRead first file entry rest (rw n at e) in
      (good.accepted, ground (arith, good.shorter, read_exact-shorter (c ∷ cs) 4 first file n))
]
