-- ===== src/Tests/Disk.antt =====
-- A platform whose disk is an association list and whose operations all succeed, with a codec that
-- writes each field behind its length. It shows that the laws of `Platform` can hold.
use mihomo_extension_sidecar.Common.{
  ℕ, zero, suc, ◌==◌, Bool, true, false, ◌&&◌, List, [], ◌∷◌, ◌++◌, Option, some, none, Bytes,
  bytes_eq, bytes_eq_iff, arith, ◌≡◌, ◌≢◌, ◌↔◌, ◌∙◌, refl, ap, if◌then◌else◌, length, take, drop,
  take_append, drop_append,
}
use mihomo_extension_sidecar.Bundle.Types.{
  BundleState, staged, active, superseded, unknown, BundleRecord, BundlePointer,
}
use mihomo_extension_sidecar.Bundle.Platform.{
  Folder, root, bundles, FilePath, FileRead, not_exist, failed, found, Removal, removed, was_absent,
  DirEntry, Platform, Laws,
}

abbrev field : Bytes → Bytes
field x = length x ∷ x

abbrev first : Bytes → Bytes
first [] = []
first (n ∷ xs) = take n xs

abbrev after : Bytes → Bytes
after [] = []
after (n ∷ xs) = drop n xs

abbrev state_code : BundleState → ℕ
state_code staged = 0
state_code active = 1
state_code superseded = 2
state_code (unknown t) = 3

abbrev state_word : BundleState → Bytes
state_word (unknown t) = t
state_word _ = []

abbrev state_of_code : ℕ → Bytes → BundleState
state_of_code zero t = staged
state_of_code (suc zero) t = active
state_of_code (suc (suc zero)) t = superseded
state_of_code _ t = unknown t

state_round_trip : (s : BundleState) → state_of_code (state_code s) (state_word s) ≡ s
state_round_trip staged = refl
state_round_trip active = refl
state_round_trip superseded = refl
state_round_trip (unknown t) = refl

abbrev pub encode : BundleRecord → Bytes
encode r =
    r.schema
    ∷ r.staged_at
    ∷ r.activated_at
    ∷ state_code r.state
    ∷ (field (state_word r.state)
        ++ (field r.id ++ (field r.digest ++ (field r.document ++ r.record_digest))))

abbrev decode_fields : ℕ → ℕ → ℕ → ℕ → Bytes → BundleRecord
decode_fields schema staged_at activated_at code a =
    let b = after a in
    let c = after b in
    let d = after c in
    record {
      schema = schema;
      id = first b;
      state = state_of_code code (first a);
      digest = first c;
      document = first d;
      staged_at = staged_at;
      activated_at = activated_at;
      record_digest = after d;
    }

abbrev pub decode : Bytes → Option BundleRecord
decode (a ∷ b ∷ c ∷ d ∷ rest) = some (decode_fields a b c d rest)
decode _ = none

first-field : (x rest : Bytes) → first (field x ++ rest) ≡ x
first-field x rest = take_append x rest

after-field : (x rest : Bytes) → after (field x ++ rest) ≡ rest
after-field x rest = drop_append x rest

decode-encode : (r : BundleRecord) → decode (encode r) ≡ some r
decode-encode r = simp (take_append, drop_append, state_round_trip)

abbrev pub encode_pointer : BundlePointer → Bytes
encode_pointer p = p.schema ∷ p.updated_at ∷ (field p.active ++ (field p.previous ++ p.digest))

abbrev pub decode_pointer : Bytes → Option BundlePointer
decode_pointer (a ∷ b ∷ rest) = some (record {
  schema = a;
  active = first rest;
  previous = first (after rest);
  updated_at = b;
  digest = after (after rest);
})
decode_pointer _ = none

decode_pointer-encode : (p : BundlePointer) → decode_pointer (encode_pointer p) ≡ some p
decode_pointer-encode p = simp (take_append, drop_append)

abbrev folder_eq : Folder → Folder → Bool
folder_eq root root = true
folder_eq bundles bundles = true
folder_eq _ _ = false

unfoldable pub path_eq : FilePath → FilePath → Bool
path_eq p q = folder_eq p.folder q.folder && bytes_eq p.name q.name

folder_eq_iff : (f g : Folder) → (folder_eq f g ≡ true) ↔ (f ≡ g)
folder_eq_iff root root = ground arith
folder_eq_iff root bundles = ground arith
folder_eq_iff bundles root = ground arith
folder_eq_iff bundles bundles = ground arith

path_eq_iff : (p q : FilePath) → (path_eq p q ≡ true) ↔ (p ≡ q)
unfolding path_eq
path_eq_iff p q = ground (arith, folder_eq_iff p.folder q.folder, bytes_eq_iff p.name q.name)

abbrev pub Disk : Type 0
Disk = List (FilePath × Bytes)

unfoldable pub read : FilePath → Disk → FileRead
unfolding path_eq
read p [] = not_exist
read p ((q, c) ∷ w) = if path_eq q p then found c else read p w

unfoldable pub erase : FilePath → Disk → Disk
unfolding path_eq
erase p [] = []
erase p ((q, c) ∷ w) = let rest = erase p w in if path_eq q p then rest else (q, c) ∷ rest

abbrev store : FilePath → Bytes → Disk → Disk
store p c w = (p, c) ∷ erase p w

read-erase :
    (p q : FilePath) (w : Disk) → read q (erase p w) ≡ (if path_eq p q then not_exist else read q w)
unfolding read erase
read-erase p q [] = ground arith
read-erase p q ((r, c) ∷ w) =
    ground (arith, path_eq_iff r p, path_eq_iff r q, path_eq_iff p q, read-erase p q w)

read-erase_ne : (p q : FilePath) (w : Disk) → q ≢ p → read q (erase p w) ≡ read q w
read-erase_ne p q w ne = ground (arith, read-erase p q w, path_eq_iff p q)

read-erase_self : (p : FilePath) (w : Disk) → read p (erase p w) ≡ not_exist
read-erase_self p w = ground (arith, read-erase p p w, path_eq_iff p p)

read-store_ne : (p q : FilePath) (c : Bytes) (w : Disk) → q ≢ p → read q (store p c w) ≡ read q w
unfolding read
read-store_ne p q c w ne = ground (arith, read-erase_ne p q w, path_eq_iff p q)

read-store : (p : FilePath) (c : Bytes) (w : Disk) → read p (store p c w) ≡ found c
unfolding read
read-store p c w = ground (arith, path_eq_iff p p)

-- A rename of a file that is there moves it; any other fails and does nothing.
abbrev move : FilePath → FilePath → FileRead → Disk → Bool × Disk
move s d (found c) w = (true, store d c (erase s w))
move s d _ w = (false, w)

abbrev removal : FilePath → FileRead → Disk → Removal × Disk
removal p (found c) w = (removed, erase p w)
removal p _ w = (was_absent, erase p w)

abbrev without_bundles : Disk → Disk
without_bundles [] = []
without_bundles ((p, c) ∷ w) =
    let rest = without_bundles w in elim p.folder [ root ↦ (p, c) ∷ rest | bundles ↦ rest ]

abbrev entries : Disk → List DirEntry
entries [] = []
entries ((p, c) ∷ w) =
    let rest = entries w in
    elim p.folder [ root ↦ rest | bundles ↦ record { name = p.name; is_dir = false } ∷ rest ]

-- A document decodes when it is not empty; a digest is the text itself.
abbrev pub disk_platform : Platform
disk_platform = record {
  World = Disk;
  Config = Bytes;
  read_file = read;
  read_dir = λ w. some (some (entries w));
  open_truncate = λ p w. (true, store p [] w);
  write_file = λ p c w. (true, store p c w);
  sync_file = λ p w. (true, w);
  close_file = λ p w. (true, w);
  rename = λ s d w. move s d (read s w) w;
  remove = λ p w. removal p (read p w) w;
  sync_folder = λ f w. (true, w);
  remove_bundles = λ w. (true, without_bundles w);
  make_bundles = λ w. (true, w);
  now = λ w. length w;
  sha256_hex = λ x. x;
  format_int = λ n. n ∷ [];
  encode_record = encode;
  decode_record = decode;
  encode_pointer = encode_pointer;
  decode_pointer = decode_pointer;
  decode_config = λ d. if length d == 0 then none else some d;
  module_count = length;
}

move_frame :
    (s d q : FilePath) (x : FileRead) (w : Disk)
    → q ≢ s
    → q ≢ d
    → read q (move s d x w).1 ≡ read q w
move_frame s d q (found c) w ns nd = read-store_ne d q c (erase s w) nd ∙ read-erase_ne s q w ns
move_frame s d q not_exist w ns nd = refl
move_frame s d q failed w ns nd = refl

move_moves :
    (s d : FilePath) (x : FileRead) (w : Disk)
    → (move s d x w).0 ≡ true
    → read d (move s d x w).1 ≡ x
move_moves s d (found c) w h = read-store d c (erase s w)
move_moves s d not_exist w h = cc
move_moves s d failed w h = cc

move_fails :
    (s d q : FilePath) (x : FileRead) (w : Disk)
    → (move s d x w).0 ≡ false
    → read q (move s d x w).1 ≡ read q w
move_fails s d q (found c) w h = cc
move_fails s d q not_exist w h = refl
move_fails s d q failed w h = refl

removal_erases : (p : FilePath) (x : FileRead) (w : Disk) → (removal p x w).1 ≡ erase p w
removal_erases p (found c) w = refl
removal_erases p not_exist w = refl
removal_erases p failed w = refl

without_bundles_gone :
    (n : Bytes) (w : Disk)
    → read (record { folder = bundles; name = n }) (without_bundles w) ≡ not_exist
unfolding read
without_bundles_gone n [] = refl
without_bundles_gone n ((p, c) ∷ w) = ground (arith, without_bundles_gone n w)

without_bundles_frame :
    (n : Bytes) (w : Disk)
    → read (record { folder = root; name = n }) (without_bundles w)
      ≡ read (record { folder = root; name = n }) w
unfolding read
without_bundles_frame n [] = refl
without_bundles_frame n ((p, c) ∷ w) = ground (arith, without_bundles_frame n w)

pub disk_laws : Laws disk_platform
disk_laws = record {
  open_frame = λ p q w ne. read-store_ne p q [] w ne;
  write_frame = λ p q raw w ne. read-store_ne p q raw w ne;
  write_whole = λ p raw w h k. read-store p raw (store p [] w);
  sync_keeps = λ p q w. refl;
  close_keeps = λ p q w. refl;
  rename_frame = λ s d q w ns nd. move_frame s d q (read s w) w ns nd;
  rename_moves = λ s d w h. move_moves s d (read s w) w h;
  rename_fails = λ s d q w h. move_fails s d q (read s w) w h;
  remove_frame = λ p q w ne. ap (read q) (removal_erases p (read p w) w) ∙ read-erase_ne p q w ne;
  remove_gone = λ p w h. ap (read p) (removal_erases p (read p w) w) ∙ read-erase_self p w;
  sync_folder_keeps = λ f q w. refl;
  remove_bundles_gone = λ n w h. without_bundles_gone n w;
  remove_bundles_frame = λ n w. without_bundles_frame n w;
  make_bundles_keeps = λ q w. refl;
  record_round_trip = λ r v. decode-encode r;
  pointer_round_trip = λ p. decode_pointer-encode p;
}
