-- ===== src/Harness/Sharing/Same.antt =====
-- The comparison of specs (borrowed-sharing.ts, `canonical(a) === canonical(b)`) is equality.
use aippliance_magic_stick.Prelude.{true, Option, none, some, [], ◌∷◌, ◌≡◌, ◌↔◌, arith}
use aippliance_magic_stick.Prelude.Text.{Labels, str_eq_iff}
use aippliance_magic_stick.Harness.Sharing.Spec.{
  Value, text, json, Parameters, ParametersField, absent, object, malformed, Spec, same_value,
  same_option, same_labels, same_parameters, same_field, same_spec,
}

same_value_iff : (a b : Value) → (same_value a b ≡ true) ↔ (a ≡ b)
same_value_iff (text a) (text b) = ground (arith, str_eq_iff a b)
same_value_iff (json a) (json b) = ground (arith, str_eq_iff a b)
same_value_iff (text a) (json b) = ground arith
same_value_iff (json a) (text b) = ground arith

same_option_iff : (a b : Option Value) → (same_option a b ≡ true) ↔ (a ≡ b)
same_option_iff none none = ground arith
same_option_iff (some a) (some b) = ground (arith, same_value_iff a b)
same_option_iff none (some b) = ground arith
same_option_iff (some a) none = ground arith

same_labels_iff : (a b : Labels) → (same_labels a b ≡ true) ↔ (a ≡ b)
same_labels_iff [] [] = ground arith
same_labels_iff ((j, v) ∷ m) ((k, w) ∷ n) =
    ground (arith, str_eq_iff j k, str_eq_iff v w, same_labels_iff m n)
same_labels_iff [] (x ∷ n) = ground arith
same_labels_iff (x ∷ m) [] = ground arith

same_parameters_iff : (a b : Parameters) → (same_parameters a b ≡ true) ↔ (a ≡ b)
same_parameters_iff a b = ground (
  arith,
  same_option_iff a.gpu_sharing b.gpu_sharing,
  same_option_iff a.validation_request b.validation_request,
  same_labels_iff a.others b.others,
)

same_field_iff : (a b : ParametersField) → (same_field a b ≡ true) ↔ (a ≡ b)
same_field_iff absent absent = ground arith
same_field_iff (object a) (object b) = ground (arith, same_parameters_iff a b)
same_field_iff (malformed a) (malformed b) = ground (arith, str_eq_iff a b)
same_field_iff absent (object b) = ground arith
same_field_iff absent (malformed b) = ground arith
same_field_iff (object a) absent = ground arith
same_field_iff (object a) (malformed b) = ground arith
same_field_iff (malformed a) absent = ground arith
same_field_iff (malformed a) (object b) = ground arith

pub same_spec_iff : (a b : Spec) → (same_spec a b ≡ true) ↔ (a ≡ b)
unfolding same_spec
same_spec_iff a b =
    ground (arith, same_field_iff a.parameters b.parameters, same_labels_iff a.others b.others)
