-- ===== src/Spec/Forked.antt =====
-- `fork` of libc_overrides.c, in the parent and in the child.
use tcpsnitch.Base.{◌≡◌, ◌⊎◌, refl, ℤ, pos, true, false, inl, inr, eqb_ℤ, Bool-cases}
use tcpsnitch.Outcome.{Returns, returns, Returns-bind}
use tcpsnitch.Kernel.{Kernel}
use tcpsnitch.World.{World}
use tcpsnitch.Overrides.{answer, fork_override}
use tcpsnitch.Spec.{Abs, Shows}
use tcpsnitch.Spec.Heirs.{IsChild, reset_tcpsnitch-IsChild}

-- Where the library has been initialized, `fork` gives the program the result and the `errno` of the
-- original function, without a fault. Where the result is not 0, in the parent, the library stays as
-- it is. In the child no lock is left: each socket of the parent has an heir at its descriptor, with
-- its information and one event, under a number of its own: the numbers start from 0 again, in the order
-- of the descriptors. No other socket is there, no line is written, and the library is to start again
-- with the next call.
pub fork_override-IsChild :
    (k : Kernel) (ret err : ℤ) {a : Abs} {w : World}
    → w.initialized ≡ true
    → Shows a w
    → Returns
        (λ (x, v).
          (x ≡ answer ret err)
          × (((eqb_ℤ ret (pos 0) ≡ false) × (v ≡ w))
              ⊎ ((eqb_ℤ ret (pos 0) ≡ true) × IsChild a w.trace v)))
        (fork_override ret err k w)
unfolding fork_override
fork_override-IsChild k ret err ready shows = elim (Bool-cases (eqb_ℤ ret (pos 0))) [
  | inl e ↦ rw e (
      Returns-bind (reset_tcpsnitch-IsChild k ready shows)
        λ (_, v) child. returns (refl, inr (refl, child)))
  | inr e ↦ rw e (returns (refl, inl (refl, refl)))
]
