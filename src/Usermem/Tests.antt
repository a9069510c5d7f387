-- ===== src/Usermem/Tests.antt =====
-- A user memory of one page and the theorems at it.
use pebpeb_os.Base.{
  ℕ, ◌≡◌, ◌↔◌, ◌≤◌, refl, true, false, none, some, [], ◌∷◌, ltb, ◌==◌, if◌then◌else◌,
}
use pebpeb_os.Usermem.{UserMem, try_read, copy_from_user, copy_string_from_user}
use pebpeb_os.Usermem.Copy.{Holds, copy_from_user_iff}
use pebpeb_os.Usermem.Text.{IsText, copy_string_from_user-IsText}

-- "ab" and its NUL at 100; the bytes below 200 can be written, and read.
abbrev page : UserMem
page = record {
  read = λ a.
      if a == 100
      then some b'a'
      else if a == 101
      then some b'b'
      else if ltb a 200
      then some 0
      else none;
  writable = λ a. ltb a 200;
}

copy_from_user_run : copy_from_user page 100 3 ≡ (true, b'a' ∷ b'b' ∷ 0 ∷ [])
unfolding copy_from_user try_read
copy_from_user_run = refl

copy_from_user_end : copy_from_user page 199 2 ≡ (false, 0 ∷ [])
unfolding copy_from_user try_read
copy_from_user_end = refl

copy_from_user_iff_example :
    (copy_from_user page 100 2 ≡ (true, b'a' ∷ b'b' ∷ []))
    ↔ ((◌≡◌ {A = ℕ} 2 2) × Holds page 100 (b'a' ∷ b'b' ∷ []))
copy_from_user_iff_example = copy_from_user_iff page 100 2 (b'a' ∷ b'b' ∷ [])

copy_string_run : copy_string_from_user page (λ n. true) 100 3 ≡ some (b'a' ∷ b'b' ∷ 0 ∷ [])
unfolding copy_string_from_user try_read
copy_string_run = refl

copy_string_short : copy_string_from_user page (λ n. true) 100 2 ≡ none
unfolding copy_string_from_user try_read
copy_string_short = refl

copy_string_from_user-IsText_example : IsText page 100 (b'a' ∷ b'b' ∷ 0 ∷ []) × (3 ≤ 3)
copy_string_from_user-IsText_example =
    copy_string_from_user-IsText page (λ n. true) 100 3 (b'a' ∷ b'b' ∷ 0 ∷ []) copy_string_run
