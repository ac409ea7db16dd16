-- ===== src/Patch/Correct.antt =====
-- From the call sites to memory: the patched instructions call the moved functions.
use ocolos_public.Prelude.{
  ℕ, ◌+◌, ◌-◌, ◌/◌, ◌%◌, ◌^◌, ◌≤◌, ◌<◌, ◌≡◌, refl, sym, ap, ◌∙◌, inl, inr, true, List, [], ◌∷◌,
  some, get_elem?, lookup, has_key, arith, All, sub_ℕ, pos, IsMap, Has, Safe, Safe-map, subst,
}
use ocolos_public.Utils.Offsets.{
  le_value, convert_long_2_vec_uint8-pos, convert_long_2_vec_uint8_shape,
}
use ocolos_public.Functions.{FuncInfo, Funcs}
use ocolos_public.Records.{Record, IsRecord}
use ocolos_public.CallSites.{CallSite, Sites, SitesList}
use ocolos_public.CallSites.Groups.{group}
use ocolos_public.Tracee.{Kernel, IsKernel}
use ocolos_public.Tracee.Files.{insert_call_site}
use ocolos_public.Tracee.Pages.{Refused}
use ocolos_public.Tracee.Machine.{All-Fits}
use ocolos_public.Tracee.Replacement.{insert_code_to_orig_text_sec-Patched}
use ocolos_public.Patch.{site_at, call_code, extract_call_sites}
use ocolos_public.Patch.Output.{call_record, call_records, extract_call_sites-records}
use ocolos_public.Patch.Selection.{Among, call_records-Among}
use ocolos_public.Patch.Overlap.{AreApart, records_byte-Among}

-- The memory holds, at `addr`, a call with the next instruction at `next`, and it calls `target`:
-- opcode E8, and a displacement, below 2^31 and so not negative, that leads there.
pub record CallsTo (memory : ℕ → ℕ) (addr next target : ℕ) : Type 0 where
  pub opcode : memory addr ≡ 232
  pub displacement :
      next
        + le_value
            (memory (addr + 1) ∷ memory (addr + 2) ∷ memory (addr + 3) ∷ memory (addr + 4) ∷ [])
      ≡ target
  pub forward :
      le_value (memory (addr + 1) ∷ memory (addr + 2) ∷ memory (addr + 3) ∷ memory (addr + 4) ∷ [])
      < 2 ^ 31

-- The code of a call, if the target lies at most 2^31 - 1 behind the next instruction.
pub call_code-forward :
    (target next : ℕ)
    → next ≤ target
    → call_code target next
      ≡ 232
        ∷ (target - next) % 256
        ∷ (target - next) / 256 % 256
        ∷ (target - next) / 65536 % 256
        ∷ (target - next) / 16777216 % 256
        ∷ []
unfolding call_code
call_code-forward target next h =
    let ahead : sub_ℕ target next ≡ pos (target - next) = ground arith in
    rw (ahead, convert_long_2_vec_uint8-pos (target - next))

pub CallsTo-bytes :
    (memory : ℕ → ℕ) (addr next target : ℕ)
    → next ≤ target
    → target < next + 2 ^ 31
    → ((i b : ℕ) → get_elem? (call_code target next) i ≡ some b → memory (addr + i) ≡ b)
    → CallsTo memory addr next target
CallsTo-bytes memory addr next target lo hi bytes =
    let n = target - next in
    let code = call_code-forward target next lo in
    let b₀ : memory addr ≡ 232 = at 0 232 addr (omega arith) (rw code) in
    let b₁ = at 1 (n % 256) (addr + 1) refl (rw code) in
    let b₂ = at 2 (n / 256 % 256) (addr + 2) refl (rw code) in
    let b₃ = at 3 (n / 65536 % 256) (addr + 3) refl (rw code) in
    let b₄ = at 4 (n / 16777216 % 256) (addr + 4) refl (rw code) in
    record {
      opcode = b₀;
      displacement = rw (b₁, b₂, b₃, b₄) (omega arith);
      forward = rw (b₁, b₂, b₃, b₄) (omega arith);
    }
  where
    at : (i b a : ℕ) → addr + i ≡ a → get_elem? (call_code target next) i ≡ some b → memory a ≡ b
    at i b a e q = ap memory (sym e) ∙ bytes i b q

call_record-IsRecord :
    (unset : CallSite) (sites : Sites) (stack : Funcs) (moved : FuncInfo) (addr : ℕ)
    → addr + 8197 < 2 ^ 63
    → IsRecord (call_record unset sites stack moved addr)
unfolding call_code
call_record-IsRecord unset sites stack moved addr h =
    let (four, bytes) = convert_long_2_vec_uint8_shape _ in
    record { some_code = omega arith; fits = omega (arith, four); are_bytes = (omega arith, bytes) }

-- All records of a list have the property that each of them has.
pub All-Among :
    (P : Record → Type 0) (rs : List Record) → ((r : Record) → Among r rs → P r) → All P rs
All-Among P [] h = tt
All-Among P (r ∷ rs) h = (h r (inl refl), All-Among P rs (λ t k. h t (inr k)))

Among-All : (P : Record → Type 0) (r : Record) (rs : List Record) → All P rs → Among r rs → P r
Among-All P r [] h k = absurd k
Among-All P r (x ∷ rs) (h, hs) (inl e) = subst P (sym e) h
Among-All P r (x ∷ rs) (h, hs) (inr k) = Among-All P r rs hs k

module _ (k : Kernel) (laws : IsKernel k) (junk : ℕ → ℕ) (unset : CallSite) (sites : Sites)
    (groups : SitesList) (moved_func stack : Funcs) where
  pub call_records-IsRecord :
      IsMap moved_func
      → All (λ r. r.address + 8197 < 2 ^ 63) (call_records unset sites stack groups moved_func)
      → All IsRecord (call_records unset sites stack groups moved_func)
  call_records-IsRecord m low = All-Among IsRecord _ (λ r i.
      let (j, moved, addr, l, h, p, e) =
        (call_records-Among unset sites stack groups moved_func r m).0 i in
      let bound = Among-All (λ t. t.address + 8197 < 2 ^ 63) r _ low i in
      subst IsRecord (sym e) (
        call_record-IsRecord unset sites stack moved addr
          (subst (λ t. t.address + 8197 < 2 ^ 63) e bound)))

  -- The call sites that extract_call_sites patches, after insert_call_site has read its file: each
  -- call that is listed under a moved function, and whose own function is on a call stack, calls
  -- the function's new address, if that lies at most 2^31 - 1 behind the next instruction. The
  -- insertion never faults, and exits only where the kernel refuses a page. The patched
  -- instructions must not overlap, and lie in the lower half of the address space.
  pub patched_calls :
      (s : k.Space) (target addr : ℕ) (moved : FuncInfo)
      → IsMap moved_func
      → AreApart (call_records unset sites stack groups moved_func)
      → All (λ r. r.address + 8197 < 2 ^ 63) (call_records unset sites stack groups moved_func)
      → lookup target moved_func ≡ some moved
      → Has addr (group groups target)
      → has_key (site_at unset sites addr).belonged_func stack ≡ true
      → (site_at unset sites addr).next_addr ≤ moved.moved_addr
      → moved.moved_addr < (site_at unset sites addr).next_addr + 2 ^ 31
      → Safe
          (Refused k)
          (λ s'. CallsTo (k.byte_at s') addr (site_at unset sites addr).next_addr moved.moved_addr)
          (insert_call_site k junk 0
            (some (extract_call_sites unset sites groups moved_func stack))
            s)
  unfolding insert_call_site
  patched_calls s target addr moved m apart low found listed on ahead near =
      let rs = call_records unset sites stack groups moved_func in
      let r = call_record unset sites stack moved addr in
      let among =
        (call_records-Among unset sites stack groups moved_func r m).1
          (target, moved, addr, found, listed, on, refl) in
      rw (extract_call_sites-records unset sites stack groups moved_func) (
        Safe-map (Refused k) _ _ _
          (insert_code_to_orig_text_sec-Patched k laws junk 0 rs s (call_records-IsRecord m low)
            (All-Fits rs (call_records-IsRecord m low)))
          (λ s' p.
            CallsTo-bytes (k.byte_at s') addr _ moved.moved_addr ahead near
              (λ i b q. p.bytes (addr + i) ∙ rw (records_byte-Among r rs i b apart among q))))
