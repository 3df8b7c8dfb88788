-- ===== src/Vm/Except.antt =====
-- The exception blocks of the virtual machine: `pylt_vm_except_setup`, `pylt_vm_except_pop` and
-- `pylt_vm_except_check`. A block keeps the address of its frame in the array of `ctx->frames`, which
-- moves when it grows. Addresses are counted in frames.
use python_lite.Base.{
  ℕ, ◌+◌, ◌-◌, ◌<◌, ◌≡◌, Bool, List, [], ◌∷◌, Option, some, none, ◌==◌, if◌then◌else◌, length, ◌⊎◌,
  ◌≤◌,
}
use python_lite.Parser.Emit.{drop}

-- `PyLiteExceptInfo`; the place of `ip_catch` is that in the code of its frame.
pub record ExceptInfo : Type 0 where
  pub typecode : ℕ
  pub ip_catch : ℕ
  pub frame : ℕ

-- `frames` and `expt_stack` list the top first; `frames_at` and `frames_max` are the address and the
-- capacity of the array of frames.
pub record Context {ℓ} (F : Type ℓ) : Type ℓ where
  pub ip : ℕ
  pub frames : List F
  pub frames_at : ℕ
  pub frames_max : ℕ
  pub expt_stack : List ExceptInfo

-- `pl_isinstance` of the error, by the code of a type, is given.
-- The search from the top of the stack of blocks; `fcount` counts those of other frames.
unfoldable pub find_block : (ℕ → Bool) → ℕ → ℕ → List ExceptInfo → Option (ExceptInfo × ℕ)
find_block isinstance nframe fcount [] = none
find_block isinstance nframe fcount (info ∷ infos) =
    let count = if info.frame == nframe then fcount else fcount + 1 in
    let rest = find_block isinstance nframe count infos in
    if isinstance info.typecode then some (info, count) else rest

-- What the check finds: no block for the error, or the context behind the catch, where the error
-- is pushed and cleared. `broken` is a pop from no frames.
pub data Check {ℓ} (F : Type ℓ) : Type ℓ where
  crash : Check F
  caught : Context F → Check F
  broken : Check F

-- An address that is not in the array.
abbrev pub Outside : ℕ → ℕ → ℕ → Type 0
Outside at size target = (target < at) ⊎ (at + size ≤ target)

module _ {ℓ} {F : Type ℓ} where
  -- `pylt_vm_curframe`
  abbrev pub curframe : Context F → ℕ
  curframe ctx = ctx.frames_at + (length ctx.frames - 1)

  unfoldable pub except_setup : ℕ → ℕ → Context F → Context F
  except_setup typecode ip ctx = record ctx {
    expt_stack =
        record { typecode = typecode; ip_catch = ip; frame = curframe ctx } ∷ ctx.expt_stack;
  }

  unfoldable pub except_pop : ℕ → Context F → Context F
  except_pop num ctx = record ctx { expt_stack = drop num ctx.expt_stack }

  -- The loop that switches frames: `kv_pop` gives the frame that it takes off, at `frames_at` and
  -- the number of those below it.
  unfoldable pub pop_frames : ℕ → ℕ → ℕ → List F → Option (List F)
  pop_frames frames_at target nframe [] = if nframe == target then some [] else none
  pop_frames frames_at target nframe (f ∷ frames) =
      let rest = pop_frames frames_at target (frames_at + length frames) frames in
      if nframe == target then some (f ∷ frames) else rest

  abbrev pub switched : ExceptInfo → ℕ → Context F → Option (List F) → Check F
  switched info fcount ctx none = broken
  switched info fcount ctx (some frames) =
      caught (record ctx {
        ip = info.ip_catch;
        frames = frames;
        expt_stack = drop fcount ctx.expt_stack;
      })

  abbrev pub found : Context F → Option (ExceptInfo × ℕ) → Check F
  found ctx none = crash
  found ctx (some (info, fcount)) =
      switched info fcount ctx (pop_frames ctx.frames_at info.frame (curframe ctx) ctx.frames)

  -- `pylt_vm_except_check` where an error is set.
  unfoldable pub except_check : (ℕ → Bool) → Context F → Check F
  unfolding find_block pop_frames
  except_check isinstance ctx = found ctx (find_block isinstance (curframe ctx) 0 ctx.expt_stack)

  -- What the check comes to for an error for which the block `info` is found.
  pub record Switches (ctx : Context F) (info : ExceptInfo) (fcount : ℕ) (out : Check F)
      : Type ℓ where
    -- The block's frame is the one with `k` frames below it.
    pub in_array :
        (k : ℕ)
        → info.frame ≡ ctx.frames_at + k
        → k < length ctx.frames
        → (left : List F) × (out
            ≡ caught (record ctx {
              ip = info.ip_catch;
              frames = left;
              expt_stack = drop fcount ctx.expt_stack;
            }))
          × (k + 1 ≡ length ctx.frames → left ≡ ctx.frames)
          × (k + 1 < length ctx.frames → length left ≡ k)
    pub dangling : Outside ctx.frames_at (length ctx.frames) info.frame → out ≡ broken
