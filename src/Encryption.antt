-- ===== src/Encryption.antt =====
-- config/config_encryption.go: the container of the encrypted configuration. AES in CFB mode is the
-- interface `Cipher`; the random initialisation vector is an argument. An error is `none`.
pub mod RoundTrip
pub mod Examples
use cryptofiend.Prelude.{
  ℕ, Bool, not, Option, none, some, ◌++◌, ltb, if◌then◌else◌, Text, codes, length, take, drop,
}
use cryptofiend.Text.{contains, trim}

pub record Cipher : Type 0 where
  -- aes.NewCipher takes the key
  pub accepts : Text → Bool
  -- XORKeyStream of the encrypter and the decrypter, by key and vector
  pub encrypt : Text → Text → Text → Text
  pub decrypt : Text → Text → Text → Text

abbrev pub encrypt_confirm_string : Text
encrypt_confirm_string = codes "THORS-HAMMER"

-- aes.BlockSize
abbrev pub block_size : ℕ
block_size = 16

unfoldable pub encrypt_config_file : Cipher → Text → Text → Text → Option Text
encrypt_config_file cipher iv config_data key =
    if cipher.accepts key
    then some (encrypt_confirm_string ++ (iv ++ cipher.encrypt key iv config_data))
    else none

unfoldable pub remove_ecs : Text → Text
remove_ecs file = trim file encrypt_confirm_string

unfoldable pub confirm_ecs : Text → Bool
confirm_ecs file = contains file encrypt_confirm_string

unfoldable pub decrypt_config_file : Cipher → Text → Text → Option Text
unfolding remove_ecs
decrypt_config_file cipher config_data key =
    let trimmed = remove_ecs config_data in
    if not (cipher.accepts key)
    then none
    else if ltb (length trimmed) block_size
    then none
    else some (cipher.decrypt key (take block_size trimmed) (drop block_size trimmed))
