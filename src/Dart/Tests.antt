-- ===== src/Dart/Tests.antt =====
-- Two libraries: 1 is null, 2 has the class 20. Texts have the handle 9, and 3 is an error.
use feng_shui.Prelude.{◌≡◌, refl, true, none, [], ◌∷◌, ◌==◌, if◌then◌else◌}
use feng_shui.Prelude.Int.{pos}
use feng_shui.Dart.{
  Dart, back, propagated, dart_check, dart_check_with_null, dart_from_string, class_in,
  dart_find_class, dart_invoke, dart_new, dart_to_string, dart_from_signed,
}
use feng_shui.Dart.Calls.{IsFirst, find_class-IsFirst}

abbrev dart : Dart
dart = record {
  is_error = λ handle. handle == 3;
  is_null = λ handle. handle == 1;
  new_string = λ text. 9;
  new_integer = λ z. 8;
  new_unsigned = λ n. 8;
  new_boolean = λ b. 8;
  lookup_library = λ name. 2;
  get_class = λ library name. if library == 2 then 20 else 1;
  loaded_libraries = 1 ∷ 2 ∷ [];
  call_member = λ owner name arguments. 3;
  call_new = λ class name arguments. 4;
  null = 1;
}

finds : dart_find_class dart (65 ∷ []) ≡ back 20
unfolding dart_find_class class_in dart_check_with_null dart_from_string
finds = refl

fails : dart_invoke dart 5 (65 ∷ []) (6 ∷ 7 ∷ []) ≡ propagated 3
unfolding dart_invoke dart_check dart_check_with_null dart_from_string
fails = refl

makes : dart_new dart 20 (6 ∷ 7 ∷ []) ≡ back 4
unfolding dart_new dart_check
makes = refl

leaves_ok : dart_to_string dart 0 (5, []) true ≡ back (none, true)
unfolding dart_to_string
leaves_ok = refl

makes_integer : dart_from_signed dart (pos 7) ≡ back 8
unfolding dart_from_signed dart_check_with_null
makes_integer = refl

find_class-IsFirst_example : IsFirst dart 9 (1 ∷ 2 ∷ []) (dart_find_class dart (65 ∷ []))
find_class-IsFirst_example = find_class-IsFirst dart (65 ∷ []) refl refl
