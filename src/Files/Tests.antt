-- ===== src/Files/Tests.antt =====
-- A file that is created to be appended to.
use feng_shui.Prelude.{◌≡◌, refl, false, true}
use feng_shui.Files.{open_options, write_only_append}

-- O_WRONLY, O_APPEND and O_CREAT.
created_to_append : open_options write_only_append false true ≡ 1089
unfolding open_options
created_to_append = refl
