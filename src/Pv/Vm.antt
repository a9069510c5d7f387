-- ===== src/Pv/Vm.antt =====
-- kern/inc/pv.h and kern/pv.c: a guest as its hypercalls and its interrupts see it, and the handlers
-- as programs on that state which return to the guest or end it.
use pebpeb_os.Base.{
  ℕ, zero, suc, ◌+◌, ◌-◌, ◌*◌, ◌/◌, ◌%◌, ◌^◌, Bool, true, false, List, [], ◌∷◌, ltb, ◌==◌,
  if◌then◌else◌,
}
use pebpeb_os.Base.Int.{ℤ, pos, negsuc}
use pebpeb_os.Usermem.{UserMem, copy_from_user, copy_to_user}
use pebpeb_os.Console.{Display}
use pebpeb_os.Pv.Vidt.{Vidt}

-- `pv_pd_t`, less its links. `refcount` is an `int`, and here has no bounds.
pub record PvPd : Type 0 where
  pub refcount : ℤ
  pub guest_pd : ℕ
  pub wp : ℕ
  pub cr3 : ℕ
  pub user_cr3 : ℕ

-- The registers of `stack_frame_t` and `ureg_t` that the handlers use.
pub record Frame : Type 0 where
  pub eip : ℕ
  pub cs : ℕ
  pub eflags : ℕ
  pub esp : ℕ
  pub eax : ℕ

-- A guest: `pv_t`, the saved registers, the `process_t` around it, and what it reaches. A `pv_pd_t`
-- stands at its address, and `shadow_pds` is the queue of these addresses. User memory is what each
-- page directory shows; `shown` is what a write through one of them makes of the others.
pub record Vm : Type 0 where
  pub vif : ℕ
  pub vidt : Vidt
  pub vesp0 : ℕ
  pub pds : ℕ → PvPd
  pub shadow_pds : List ℕ
  pub active_shadow_pd : ℕ
  pub freed : List ℕ  -- the `pv_pd_t` given to `sfree`
  pub destroyed : List ℕ  -- the page directories given to `destroy_pd`
  pub frame : Frame
  pub cr3 : ℕ
  pub exit_value : ℤ
  pub spaces : ℕ → UserMem
  pub shown : (ℕ → UserMem) → ℕ → UserMem → ℕ → UserMem
  pub display : Display

-- `int` and `reg_t` are 32 bits.
abbrev pub to_int : ℕ → ℤ
to_int w = if ltb w (2 ^ 31) then pos w else negsuc (2 ^ 32 - 1 - w)

abbrev pub sub32 : ℕ → ℕ → ℕ
sub32 a b = (a + 2 ^ 32 - b) % 2 ^ 32

-- A word in memory is four bytes, the lowest first.
abbrev pub bytes_of : (size w : ℕ) → List ℕ
bytes_of zero w = []
bytes_of (suc k) w = (w % 256) ∷ bytes_of k (w / 256)

abbrev pub word_of : List ℕ → ℕ
word_of [] = 0
word_of (c ∷ s) = c + 256 * word_of s

-- The messages of `pv_die`.
pub data Reason : Type 0 where
  bad_address : Reason
  bad_eflags : Reason
  bad_idt_index : Reason
  no_idt_handler : Reason
  syscall_in_kernel : Reason
  push_failed : Reason
  bad_length : Reason
  print_failed : Reason
  color_failed : Reason
  cursor_failed : Reason
  bad_argument : Reason
  bad_hvcall : Reason
  pd_destroyed : Reason
  no_such_pd : Reason

-- How a handler does not return: the guest is killed or exits, or the code reads through NULL.
pub data End : Type 0 where
  died : Reason → End
  exited : End
  wild : End

pub data Result {ℓ} (A : Type ℓ) : Type ℓ where
  ok : A → Vm → Result A
  stop : End → Vm → Result A

abbrev pub M : Type 0 → Type 0
M A = Vm → Result A

infixl 5 ◌>>=◌ ◌>>◌
abbrev pub ◌>>=◌ : {A B : Type 0} → M A → (A → M B) → M B
◌>>=◌ m f g = elim (m g) [ ok a g' ↦ f a g' | stop e g' ↦ stop e g' ]

abbrev pub ◌>>◌ : {B : Type 0} → M (Unit {0}) → M B → M B
m >> k = m >>= λ _. k

abbrev pub modify : (Vm → Vm) → M (Unit {0})
modify f g = ok tt (f g)

abbrev pub gets : {A : Type 0} → (Vm → A) → M A
gets f g = ok (f g) g

-- GUEST_CRASH_STATUS
abbrev pub guest_crash_status : ℕ
guest_crash_status = 0xdeadc0de

abbrev pub pv_die : {A : Type 0} → Reason → M A
pv_die r g = stop (died r) (record g { exit_value = to_int guest_crash_status })

abbrev pub memory : Vm → UserMem
memory g = g.spaces g.cr3

-- `copy_from_user` of `size` bytes, of a word, and of the k-th argument on the guest's stack, with
-- the jump to `read_arg_fail`.
unfoldable pub read_bytes : (addr size : ℕ) → M (List ℕ)
read_bytes addr size g =
    let (done, buf) = copy_from_user (memory g) addr size in
    if done then ok buf g else pv_die bad_address g

unfoldable pub read_word : (addr : ℕ) → M ℕ
read_word addr = do buf ← read_bytes addr 4; gets (λ _. word_of buf)

unfoldable pub argument : (k : ℕ) → M ℕ
argument k g = read_word (g.frame.esp + 4 * k) g

-- `copy_to_user`: whether it returns 0.
unfoldable pub write_bytes : (addr : ℕ) → List ℕ → M Bool
write_bytes addr buf g =
    let (done, m) = copy_to_user (memory g) addr buf in
    ok done (record g { spaces = (λ c. if c == g.cr3 then m else g.shown g.spaces g.cr3 m c) })

abbrev pub check : Bool → Reason → M (Unit {0})
check true r = gets (λ _. tt)
check false r = pv_die r
