-- ===== src/Encryption/RoundTrip.antt =====
-- When an encrypted configuration is read back, and when bytes of it are lost.
use cryptofiend.Prelude.{
  subst, ℕ, suc, ◌+◌, ◌≤◌, ◌<◌, ◌≡◌, refl, ap, ◌∙◌, Bool, true, false, some, [], ◌∷◌, ◌++◌, arith,
  ltb, Text, length, take, drop, length-append, take-append, drop-append, All,
}
use cryptofiend.Text.{trim, trim_left, trim_right, in_set, put_front}
use cryptofiend.Text.Search.{contains-middle}
use cryptofiend.Encryption.{
  Cipher, encrypt_confirm_string, block_size, encrypt_config_file, remove_ecs, confirm_ecs,
  decrypt_config_file,
}

abbrev pub first_in : Text → Text → Bool
first_in cutset [] = false
first_in cutset (c ∷ s) = in_set cutset c

abbrev pub last_in : Text → Text → Bool
last_in cutset [] = false
last_in cutset (c ∷ []) = in_set cutset c
last_in cutset (c ∷ d ∷ s) = last_in cutset (d ∷ s)

trim_left-clean : (cutset s : Text) → first_in cutset s ≡ false → trim_left cutset s ≡ s
unfolding trim_left
trim_left-clean cutset [] h = refl
trim_left-clean cutset (c ∷ s) h = rw h refl

trim_right-clean : (cutset s : Text) → last_in cutset s ≡ false → trim_right cutset s ≡ s
unfolding trim_right
trim_right-clean cutset [] h = refl
trim_right-clean cutset (c ∷ []) h = rw h refl
trim_right-clean cutset (c ∷ d ∷ s) h = rw (trim_right-clean cutset (d ∷ s) h) refl

trim_left-append :
    (cutset p s : Text)
    → All (λ c. in_set cutset c ≡ true) p
    → trim_left cutset (p ++ s) ≡ trim_left cutset s
unfolding trim_left
trim_left-append cutset [] s h = refl
trim_left-append cutset (c ∷ p) s h = rw h.0 (trim_left-append cutset p s h.1)

confirm_in_set : All (λ c. in_set encrypt_confirm_string c ≡ true) encrypt_confirm_string
unfolding in_set
confirm_in_set = (
  refl,
  (refl, (refl, (refl, (refl, (refl, (refl, (refl, (refl, (refl, (refl, (refl, tt))))))))))),
)

remove_ecs-prefix :
    (s : Text)
    → remove_ecs (encrypt_confirm_string ++ s)
      ≡ trim_right encrypt_confirm_string (trim_left encrypt_confirm_string s)
unfolding remove_ecs trim
remove_ecs-prefix s =
    ap (trim_right encrypt_confirm_string)
      (trim_left-append encrypt_confirm_string encrypt_confirm_string s confirm_in_set)

remove_ecs-clean :
    (s : Text)
    → first_in encrypt_confirm_string s ≡ false
    → last_in encrypt_confirm_string s ≡ false
    → remove_ecs (encrypt_confirm_string ++ s) ≡ s
remove_ecs-clean s f l =
    remove_ecs-prefix s
    ∙ (ap (trim_right encrypt_confirm_string) (trim_left-clean encrypt_confirm_string s f)
        ∙ trim_right-clean encrypt_confirm_string s l)

length-trim_right : (cutset s : Text) → length (trim_right cutset s) ≤ length s
unfolding trim_right
length-trim_right cutset [] = omega arith
length-trim_right cutset (c ∷ s) =
    put_front-le cutset c (trim_right cutset s) s (length-trim_right cutset s)
  where
    put_front-le :
        (cutset : Text) (c : ℕ) (t s : Text)
        → length t ≤ length s
        → length (put_front cutset c t) ≤ suc (length s)
    put_front-le cutset c [] s h = ground arith
    put_front-le cutset c (d ∷ t) s h = omega arith

length-trim_left : (cutset s : Text) → length (trim_left cutset s) ≤ length s
unfolding trim_left
length-trim_left cutset [] = omega arith
length-trim_left cutset (c ∷ s) = ground (arith, length-trim_left cutset s)

trim_left-shorter :
    (cutset s : Text) → first_in cutset s ≡ true → length (trim_left cutset s) < length s
unfolding trim_left
trim_left-shorter cutset [] h = cc
trim_left-shorter cutset (c ∷ s) h = rw h (omega (arith, length-trim_left cutset s))

open_file :
    (cipher : Cipher) (iv content key : Text)
    → cipher.accepts key ≡ true
    → remove_ecs (encrypt_confirm_string ++ (iv ++ content)) ≡ iv ++ content
    → length iv ≡ block_size
    → decrypt_config_file cipher (encrypt_confirm_string ++ (iv ++ content)) key
      ≡ some (cipher.decrypt key iv content)
unfolding decrypt_config_file
open_file cipher iv content key ok_key e l =
    let long : ltb (length (iv ++ content)) block_size ≡ false =
      ground (arith, length-append iv content, l) in
    let front : take block_size (iv ++ content) ≡ iv =
      subst (λ n. take n (iv ++ content) ≡ iv) l (take-append iv content) in
    let back : drop block_size (iv ++ content) ≡ content =
      subst (λ n. drop n (iv ++ content) ≡ content) l (drop-append iv content) in
    rw (ok_key, e) (rw (long, front, back) refl)

-- A file that is encrypted with a key that the cipher takes, whose decryption undoes its
-- encryption, and a vector of a block's length, carries the confirmation string and is decrypted to
-- the data, if the vector does not begin, nor the file end, with a letter of the confirmation
-- string.
pub decrypt_config_file-encrypt_config_file :
    (cipher : Cipher) (iv config_data key : Text)
    → cipher.accepts key ≡ true
    → cipher.decrypt key iv (cipher.encrypt key iv config_data) ≡ config_data
    → length iv ≡ block_size
    → first_in encrypt_confirm_string (iv ++ cipher.encrypt key iv config_data) ≡ false
    → last_in encrypt_confirm_string (iv ++ cipher.encrypt key iv config_data) ≡ false
    → (file : Text) × (encrypt_config_file cipher iv config_data key ≡ some file)
      × (confirm_ecs file ≡ true)
      × (decrypt_config_file cipher file key ≡ some config_data)
unfolding encrypt_config_file confirm_ecs
decrypt_config_file-encrypt_config_file cipher iv config_data key ok_key law l f e =
    let content = cipher.encrypt key iv config_data in
    (
      encrypt_confirm_string ++ (iv ++ content),
      rw ok_key refl,
      contains-middle [] encrypt_confirm_string (iv ++ content),
      open_file cipher iv content key ok_key (remove_ecs-clean (iv ++ content) f e) l
          ∙ ap (λ d. some d) law,
    )

file_is :
    (cipher : Cipher) (iv config_data key file : Text)
    → encrypt_config_file cipher iv config_data key ≡ some file
    → file ≡ encrypt_confirm_string ++ (iv ++ cipher.encrypt key iv config_data)
unfolding encrypt_config_file
file_is cipher iv config_data key file made = ground arith

-- Where the vector begins with a letter of the confirmation string, `RemoveECS` takes bytes of it away: what
-- it leaves of the file is shorter than the vector and the encrypted data.
pub remove_ecs_loses :
    (cipher : Cipher) (iv config_data key file : Text)
    → encrypt_config_file cipher iv config_data key ≡ some file
    → first_in encrypt_confirm_string (iv ++ cipher.encrypt key iv config_data) ≡ true
    → length (remove_ecs file) < length iv + length (cipher.encrypt key iv config_data)
remove_ecs_loses cipher iv config_data key file made f =
    let content = cipher.encrypt key iv config_data in
    let e : file ≡ encrypt_confirm_string ++ (iv ++ content) =
      file_is cipher iv config_data key file made in
    let shorter = trim_left-shorter encrypt_confirm_string (iv ++ content) f in
    let shortest =
      length-trim_right encrypt_confirm_string (trim_left encrypt_confirm_string (iv ++ content)) in
    rw (e, remove_ecs-prefix) (omega (arith, length-append iv content))
