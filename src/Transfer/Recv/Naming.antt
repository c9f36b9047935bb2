-- ===== src/Transfer/Recv/Naming.antt =====
-- The name under which a received file is stored.
use easy_network.Base.{
  ℕ, zero, suc, ◌+◌, ◌≤◌, ◌<◌, ◌≡◌, refl, ap, ◌∙◌, sym, true, false, Option, [], ◌∷◌, arith, Bytes,
  done, Bool-cases, inl, inr,
}
use easy_network.Transfer.Send.{bytes_eq}
use easy_network.Transfer.Recv.{
  Files, put_file, is_file_exist, numbered, unused_number, stem_and_extension, new_file_name,
  rename,
}

pub bytes_eq_sound : (s t : Bytes) → bytes_eq s t ≡ true → s ≡ t
unfolding bytes_eq
bytes_eq_sound [] [] h = refl
bytes_eq_sound [] (b ∷ t) h = cc
bytes_eq_sound (a ∷ s) [] h = cc
bytes_eq_sound (a ∷ s) (b ∷ t) h = ground (arith, bytes_eq_sound s t)

pub bytes_eq_refl : (s : Bytes) → bytes_eq s s ≡ true
unfolding bytes_eq
bytes_eq_refl [] = refl
bytes_eq_refl (a ∷ s) = ground (arith, bytes_eq_refl s)

unused_number_sound :
    (fuel : ℕ) (fs : Files) (stem extension : Bytes) (i j : ℕ)
    → unused_number fuel fs stem extension i ≡ done j
    → is_file_exist fs (numbered stem extension j) ≡ false
unfolding unused_number
unused_number_sound zero fs stem extension i j h = cc
unused_number_sound (suc fuel) fs stem extension i j h =
    elim (Bool-cases (is_file_exist fs (numbered stem extension i))) [
      | inl taken ↦ ground (arith, taken, unused_number_sound fuel fs stem extension (i + 1) j)
      | inr unused ↦ ground (arith, unused)
    ]

-- The search ends at the first unused number.
pub unused_number_finds :
    (k fuel : ℕ) (fs : Files) (stem extension : Bytes) (i : ℕ)
    → is_file_exist fs (numbered stem extension (i + k)) ≡ false
    → k < fuel
    → (j : ℕ) × (unused_number fuel fs stem extension i ≡ done j) × (j ≤ i + k)
unfolding unused_number
unused_number_finds k zero fs stem extension i h enough = absurd (omega arith)
unused_number_finds zero (suc fuel) fs stem extension i h enough =
    let e : i + 0 ≡ i = omega arith in
    let h' : is_file_exist fs (numbered stem extension i) ≡ false =
      ap (λ (n : ℕ). is_file_exist fs (numbered stem extension n)) (sym e) ∙ h in
    (i, ground (arith, h'), omega arith)
unused_number_finds (suc k) (suc fuel) fs stem extension i h enough =
    elim (Bool-cases (is_file_exist fs (numbered stem extension i))) [
      | inr unused ↦ (i, ground (arith, unused), omega arith)
      | inl taken ↦
          let e : i + suc k ≡ i + 1 + k = omega arith in
          let h' : is_file_exist fs (numbered stem extension (i + 1 + k)) ≡ false =
            ap (λ (n : ℕ). is_file_exist fs (numbered stem extension n)) (sym e) ∙ h in
          let (j, p, q) = unused_number_finds k fuel fs stem extension (i + 1) h' (omega arith) in
          (j, ground (arith, taken, p), omega arith)
    ]

-- `RecvFile` finds a name for a received file if one of the first `k + 1` numbered names is free and the
-- fuel exceeds `k`: the wanted name if no file can be opened under it, and in any case a name under which no
-- file can be opened for reading. So no file that can be read is overwritten.
pub new_file_name_unused :
    (k fuel : ℕ) (fs : Files) (name : Bytes)
    → is_file_exist fs (numbered (stem_and_extension name).0 (stem_and_extension name).1 (1 + k))
      ≡ false
    → k < fuel
    → (chosen : Bytes) × (new_file_name fuel fs name ≡ done chosen)
      × (is_file_exist fs chosen ≡ false)
      × (is_file_exist fs name ≡ false → chosen ≡ name)
unfolding new_file_name
new_file_name_unused k fuel fs name free enough = elim (Bool-cases (is_file_exist fs name)) [
  | inr unused ↦ (name, ground (arith, unused), unused, λ _. refl)
  | inl taken ↦
      let (stem, extension) = stem_and_extension name in
      let (j, p, q) = unused_number_finds k fuel fs stem extension 1 free enough in
      (
        numbered stem extension j,
        rw (new_file_name, taken, p) refl,
        unused_number_sound fuel fs stem extension 1 j p,
        λ u. cc,
      )
]

-- After the renaming the new name has the content.
pub rename-content : (old new : Bytes) (fs : Files) → rename old new fs new ≡ fs old
unfolding rename put_file
rename-content old new fs = ground (arith, bytes_eq_refl new)

pub put_file-content :
    (name : Bytes) (content : Option Bytes) (fs : Files) → put_file name content fs name ≡ content
unfolding put_file
put_file-content name content fs = ground (arith, bytes_eq_refl name)
