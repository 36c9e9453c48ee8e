-- ===== src/Encryption/Examples.antt =====
-- Runs of the container with a small cipher, and the theorems at concrete vectors.
use cryptofiend.Prelude.{
  ◌+◌, ◌-◌, ◌≡◌, refl, true, false, some, ◌++◌, map, ◌==◌, Text, codes, length,
}
use cryptofiend.Text.{in_set}
use cryptofiend.Encryption.{
  Cipher, encrypt_confirm_string, encrypt_config_file, confirm_ecs, decrypt_config_file,
}
use cryptofiend.Encryption.RoundTrip.{first_in, last_in, decrypt_config_file-encrypt_config_file}

abbrev shift : Text → Text
shift s = map (λ c. c + 1) s

abbrev unshift : Text → Text
unshift s = map (λ c. c - 1) s

-- A cipher to run the code with: it adds one to each byte.
abbrev toy : Cipher
toy = record {
  accepts = λ key. length key == 2;
  encrypt = λ key iv s. shift s;
  decrypt = λ key iv s. unshift s;
}

abbrev key : Text
key = codes "ky"

abbrev good_iv : Text
good_iv = codes "abcdefghijklmnop"

abbrev bad_iv : Text
bad_iv = codes "Tbcdefghijklmnop"

abbrev config_data : Text
config_data = codes "{}"

clean_front : first_in encrypt_confirm_string (good_iv ++ shift config_data) ≡ false
unfolding in_set
clean_front = refl

clean_end : last_in encrypt_confirm_string (good_iv ++ shift config_data) ≡ false
unfolding in_set
clean_end = refl

dirty_front : first_in encrypt_confirm_string (bad_iv ++ shift config_data) ≡ true
unfolding in_set
dirty_front = refl

bad_file :
    encrypt_config_file toy bad_iv config_data key
    ≡ some (encrypt_confirm_string ++ (bad_iv ++ shift config_data))
unfolding encrypt_config_file
bad_file = refl

decrypt_config_file-encrypt_config_file_example :
    (file : Text) × (encrypt_config_file toy good_iv config_data key ≡ some file)
    × (confirm_ecs file ≡ true)
    × (decrypt_config_file toy file key ≡ some config_data)
decrypt_config_file-encrypt_config_file_example =
    decrypt_config_file-encrypt_config_file toy good_iv config_data key refl refl refl clean_front
      clean_end
