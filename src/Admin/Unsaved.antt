-- ===== src/Admin/Unsaved.antt =====
-- The badge of unsaved changes.
use readflow.Common.{
  ℕ, ◌≡◌, refl, ap, ◌↔◌, Bool, true, false, not, ◌||◌, Option, none, some, List, [], ◌∷◌, arith,
  ◌==◌, ==_iff, or_else, subst, sym,
}
use readflow.Admin.{
  AdminDevice, AdminConfig, same_device, same_optional_device, same_numbers, has_unsaved_changes,
  form_of, auto,
}

same_device_eq : (a b : AdminDevice) → same_device a b ≡ true → a ≡ b
same_device_eq a b h = ground arith

same_device_refl : (a : AdminDevice) → same_device a a ≡ true
same_device_refl a = ground arith

same_optional_device_eq :
    (a : Option AdminDevice) (b : AdminDevice) → same_optional_device a b ≡ true → a ≡ some b
same_optional_device_eq none b h = absurd (cc h)
same_optional_device_eq (some a) b h = ap some (same_device_eq a b h)

same_numbers_eq : (a b : List ℕ) → same_numbers a b ≡ true → a ≡ b
same_numbers_eq [] [] h = refl
same_numbers_eq [] (y ∷ b) h = absurd (cc h)
same_numbers_eq (x ∷ a) [] h = absurd (cc h)
same_numbers_eq (x ∷ a) (y ∷ b) h = ground (arith, same_numbers_eq a b)

same_numbers_refl : (a : List ℕ) → same_numbers a a ≡ true
same_numbers_refl [] = refl
same_numbers_refl (x ∷ a) = ground (arith, same_numbers_refl a)

not_or : (a b : Bool) → (a || b) ≡ false → (a ≡ false) × (b ≡ false)
not_or true b h = absurd (cc h)
not_or false b h = (refl, h)

held : (a : Bool) → not a ≡ false → a ≡ true
held true h = refl
held false h = absurd (cc h)

same_number : (a b : ℕ) → not (a == b) ≡ false → a ≡ b
same_number a b h = (==_iff a b).0 (held (a == b) h)

saved_eq :
    (form config : AdminConfig) → has_unsaved_changes form config ≡ false → form ≡ form_of config
unfolding has_unsaved_changes form_of
saved_eq form config h =
    let (r17, f17) = not_or _ _ h in
    let (r16, f16) = not_or _ _ r17 in
    let (r15, f15) = not_or _ _ r16 in
    let (r14, f14) = not_or _ _ r15 in
    let (r13, f13) = not_or _ _ r14 in
    let (r12, f12) = not_or _ _ r13 in
    let (r11, f11) = not_or _ _ r12 in
    let (r10, f10) = not_or _ _ r11 in
    let (r9, f9) = not_or _ _ r10 in
    let (r8, f8) = not_or _ _ r9 in
    let (r7, f7) = not_or _ _ r8 in
    let (r6, f6) = not_or _ _ r7 in
    let (r5, f5) = not_or _ _ r6 in
    let (r4, f4) = not_or _ _ r5 in
    let (r3, f3) = not_or _ _ r4 in
    let (r2, f2) = not_or _ _ r3 in
    let (r1, f1) = not_or _ _ r2 in
    λ i. record {
      device =
          (same_optional_device_eq form.device (or_else config.device auto)
              (held (same_optional_device form.device (or_else config.device auto)) r1))
            i;
      idle_unload_seconds = (same_number form.idle_unload_seconds config.idle_unload_seconds f1) i;
      max_prebuffer_seconds =
          (same_number form.max_prebuffer_seconds config.max_prebuffer_seconds f2) i;
      target_buffer_seconds =
          (same_number form.target_buffer_seconds config.target_buffer_seconds f3) i;
      up_next_prebuffer_seconds =
          (same_number form.up_next_prebuffer_seconds config.up_next_prebuffer_seconds f4) i;
      render_ahead_seconds =
          (same_number form.render_ahead_seconds config.render_ahead_seconds f5) i;
      active_listener_timeout_seconds =
          (same_number form.active_listener_timeout_seconds config.active_listener_timeout_seconds
              f6)
            i;
      plan_ahead_chunks = (same_number form.plan_ahead_chunks config.plan_ahead_chunks f7) i;
      vram_soft_limit_mb = (same_number form.vram_soft_limit_mb config.vram_soft_limit_mb f8) i;
      vram_hard_limit_mb = (same_number form.vram_hard_limit_mb config.vram_hard_limit_mb f9) i;
      chunk_max_attempts = (same_number form.chunk_max_attempts config.chunk_max_attempts f10) i;
      model_load_timeout_seconds =
          (same_number form.model_load_timeout_seconds config.model_load_timeout_seconds f11) i;
      synthesis_timeout_seconds =
          (same_number form.synthesis_timeout_seconds config.synthesis_timeout_seconds f12) i;
      dispatch_stall_seconds =
          (same_number form.dispatch_stall_seconds config.dispatch_stall_seconds f13) i;
      model_residency_batches =
          (same_number form.model_residency_batches config.model_residency_batches f14) i;
      voice_residency_batches =
          (same_number form.voice_residency_batches config.voice_residency_batches f15) i;
      batch_candidates_small_model =
          (same_numbers_eq form.batch_candidates_small_model config.batch_candidates_small_model (
              held
                (same_numbers form.batch_candidates_small_model config.batch_candidates_small_model)
                f16))
            i;
      batch_candidates_large_model =
          (same_numbers_eq form.batch_candidates_large_model config.batch_candidates_large_model (
              held
                (same_numbers form.batch_candidates_large_model config.batch_candidates_large_model)
                f17))
            i;
    }

number_refl : (a : ℕ) → (a == a) ≡ true
number_refl a = (==_iff a a).1 refl

unsaved_refl : (config : AdminConfig) → has_unsaved_changes (form_of config) config ≡ false
unfolding has_unsaved_changes form_of
unsaved_refl config = simp (number_refl, same_device_refl, same_numbers_refl) refl

-- The badge of unsaved changes is off exactly when the form is the stored configuration, with the
-- device "auto" where the server names none: no field of the form is left out of the comparison.
pub has_unsaved_changes_lem :
    (form config : AdminConfig)
    → (has_unsaved_changes form config ≡ false) ↔ (form ≡ form_of config)
has_unsaved_changes_lem form config = (
  saved_eq form config,
  λ same. subst (λ f. has_unsaved_changes f config ≡ false) (sym same) (unsaved_refl config),
)
