-- ===== src/Syscall/Table.antt =====
-- The table of system calls, for src/kernel/core/syscall.cc.
use larva_os.Base.{
  ℕ, ◌<◌, ◌≤◌, ◌≡◌, ◌≢◌, refl, ap, arith, false, zero, suc, none, some, List, [], ◌∷◌, length,
  get_elem?, get_elem?_past, set,
}
use larva_os.Syscall.{
  Handler, Outcome, SysArgs, Syscalls, add, call, refused, maximum_number_of_syscalls,
}

get_elem?-set_self :
    {A : Type 0} (xs : List A) (i : ℕ) (v : A) → i < length xs → get_elem? (set xs i v) i ≡ some v
get_elem?-set_self [] i v h = absurd (omega arith)
get_elem?-set_self (x ∷ xs) zero v h = refl
get_elem?-set_self (x ∷ xs) (suc i) v h = get_elem?-set_self xs i v (omega arith)

get_elem?-set_ne :
    {A : Type 0} (xs : List A) (i j : ℕ) (v : A) → i ≢ j → get_elem? (set xs i v) j ≡ get_elem? xs j
get_elem?-set_ne [] i j v h = refl
get_elem?-set_ne (x ∷ xs) zero zero v h = absurd (h refl)
get_elem?-set_ne (x ∷ xs) zero (suc j) v h = refl
get_elem?-set_ne (x ∷ xs) (suc i) zero v h = refl
get_elem?-set_ne (x ∷ xs) (suc i) (suc j) v h = get_elem?-set_ne xs i j v (λ e. h (ap suc e))

pub refused-small : (num : ℕ) → num ≤ maximum_number_of_syscalls → refused num ≡ false
refused-small num h = ground arith

module _ {World : Type 0} (calls : Syscalls World) (h : Handler World) where
  -- A handler that is added to a free entry of a table of 100 is what a call of its number runs, on
  -- the arguments and the state of the call; the calls of the other numbers stay as they were, and
  -- a second handler for the number is a panic.
  pub call-add :
      (num : ℕ)
      → length calls ≡ maximum_number_of_syscalls
      → num < maximum_number_of_syscalls
      → get_elem? calls num ≡ some none
      → (calls' : Syscalls World) × (add calls num h ≡ Outcome.done calls')
        × ((args : SysArgs) (w : World) → call calls' num args w ≡ Outcome.done (h args w))
        × ((other : ℕ) (args : SysArgs) (w : World)
            → num ≢ other
            → call calls' other args w ≡ call calls other args w)
        × ((g : Handler World) → add calls' num g ≡ Outcome.panics)
  unfolding add call
  call-add num count small free =
      let calls' = set calls num (some h) in
      let here : get_elem? calls' num ≡ some (some h) =
        get_elem?-set_self calls num (some h) (omega (arith, count)) in
      let fits = refused-small num (omega arith) in
      (
        calls',
        rw (fits, free) refl,
        λ args w. rw (fits, here) refl,
        λ other args w ne. rw (get_elem?-set_ne calls num other (some h) ne) refl,
        λ g. rw (fits, here) refl,
      )

  -- On a table of 100 entries the test of the number lets 100 pass, and both operations then reach
  -- behind the table.
  pub last_number_outside :
      length calls ≡ maximum_number_of_syscalls
      → (add calls maximum_number_of_syscalls h ≡ Outcome.outside)
        × ((args : SysArgs) (w : World)
            → call calls maximum_number_of_syscalls args w ≡ Outcome.outside)
  unfolding add call
  last_number_outside count =
      let past = get_elem?_past calls maximum_number_of_syscalls (omega (arith, count)) in
      (rw past refl, λ args w. rw past refl)
