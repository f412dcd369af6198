-- ===== src/Host/Tests.antt =====
-- Blocks that the host library makes, with a toy digest, a toy signature scheme and a toy allocator.
use futility.Prelude.{
  Option, ℕ, true, false, ◌≤◌, ◌==◌, ◌≡◌, refl, arith, some, u8, ltb, if◌then◌else◌, List, [], ◌∷◌,
}
use futility.Prelude.Memory.{Bytes, IsBytes, put_all, put_all-IsBytes, put32, put_text, le64}
use futility.Prelude.Copy.{copy_same}
use futility.Verify.Crypto.{rsa_public_key_from_buf, rsa_processed_key_size, stateful_memcpy}
use futility.Verify.Crypto.{Crypto, RsaKey, siglen}
use futility.Verify.Blocks.{success, verify_kernel_preamble, verify_firmware_preamble}
use futility.Host.Structs.{PrivateKey, Outside, digestinfo, hash_size, signature_digest}
use futility.Host.Create.{
  Pointer, KernelNumbers, sig_size_of, create_kernel_preamble, key_size_of,
  create_firmware_preamble,
}
use futility.Host.Signing.{Signs, Encrypted}
use futility.Verify.Defs.{public_key_to_rsa}
use futility.Verify.Blocks.{key_block_verify}
use futility.Host.Create.{key_block_create}
use futility.Host.KeyBlock.{key_block_create-Accepted}
use futility.Host.KernelMade.{HoldsKernel}
use futility.Host.FirmwareMade.{HoldsFirmware}
use futility.Host.Firmware.{create_firmware_preamble-Accepted}
use futility.Host.Kernel.{create_kernel_preamble-Accepted}

abbrev toy : Crypto
toy = record {
  digest = λ b o n algorithm. λ i. u8 n;
  rsa_verify = λ key b o n algorithm hash. u8 (hash 0) == b o;
}

-- What malloc gives is not cleared; a signature is the digest behind its prefix.
abbrev platform : Outside
platform = record {
  malloc = λ k n. some (λ i. 0xA5);
  encrypt = λ key n b. some (128, λ i. u8 (b 15));
}

abbrev signing_key : PrivateKey
signing_key = record { rsa_private_key = 7; algorithm = 0 }

-- A public key, with its words behind it.
abbrev key_fields : List (ℕ × ℕ)
key_fields = (0, 32) ∷ (8, 264) ∷ (24, 1) ∷ (32, 32) ∷ []

abbrev subkey : Pointer
subkey = record { buf = put_all (λ i. 0) key_fields; at = 0 }

abbrev verifying_key : RsaKey
verifying_key = record { buf = put_all (λ i. 0) key_fields; at = 32; algorithm = 0 }

pair_test : public_key_to_rsa subkey.buf 0 ≡ some verifying_key
unfolding public_key_to_rsa siglen rsa_public_key_from_buf rsa_processed_key_size stateful_memcpy
    put32
pair_test = refl

siglen_test : siglen 0 ≡ 128
unfolding siglen
siglen_test = refl

subkey_size_test : key_size_of subkey ≡ 264
unfolding put32
subkey_size_test = refl

subkey-IsBytes : IsBytes subkey.buf
subkey-IsBytes = put_all-IsBytes (λ i. 0) key_fields (λ i. omega arith)

toy-Encrypted : (m hash : Bytes) → Encrypted platform toy signing_key verifying_key m hash
unfolding siglen hash_size digestinfo
toy-Encrypted m hash = record {
  signature = λ i. u8 (signature_digest m 0 hash 15);
  done = refl;
  bytes = λ i. omega arith;
  accepted = λ b o same. ground (
    arith,
    same 0 (omega arith),
    copy_same (put_text m 0 (digestinfo 0)) hash 15 0 20 0 (omega arith),
  );
}

toy-Signs : Signs platform toy signing_key verifying_key
toy-Signs = record {
  memory = λ k n. record { m = λ i. 0xA5; there = refl; bytes = λ i. omega arith };
  digest_same = λ a b n algorithm agree. refl;
  digest_type = λ b n. refl;
  digest_bytes = λ b n algorithm i. omega arith;
  encrypts = toy-Encrypted;
  same_algorithm = refl;
  known = omega arith;
}

abbrev body_fields : List (ℕ × ℕ)
body_fields = (0, 24) ∷ (8, 128) ∷ (16, 4096) ∷ []

abbrev behind : Bytes
behind = λ i. if ltb i 24 then 0 else 0x5A

abbrev body : Pointer
body = record { buf = put_all behind body_fields; at = 0 }

body-IsBytes : IsBytes body.buf
body-IsBytes = put_all-IsBytes behind body_fields (λ i. ground arith)

abbrev numbers : KernelNumbers
numbers = record {
  kernel_version = 1;
  body_load_address = 0x100000;
  bootloader_address = 0x110000;
  bootloader_size = 4096;
  vmlinuz_header_address = 0;
  vmlinuz_header_size = 0;
  flags = 2;
}

body_size_test : sig_size_of body ≡ 128
unfolding put32
body_size_test = refl

create_kernel_preamble-Accepted_example :
    (h : Bytes) × (create_kernel_preamble platform toy numbers body 4096 signing_key
      ≡ some (some h))
    × (verify_kernel_preamble toy h 0 4096 verifying_key ≡ success)
    × (4096 ≤ le64 h 0)
    × HoldsKernel h numbers body
create_kernel_preamble-Accepted_example =
    create_kernel_preamble-Accepted platform toy signing_key verifying_key toy-Signs numbers body
      4096 body-IsBytes (omega (arith, body_size_test)) 4096 (omega arith)
      (omega (arith, body_size_test, siglen_test)) (omega arith)

create_firmware_preamble-Accepted_example :
    (h : Bytes) × (create_firmware_preamble platform toy 3 subkey body signing_key 1
      ≡ some (some h))
    × (verify_firmware_preamble toy h 0 628 verifying_key ≡ success)
    × HoldsFirmware h 3 1 subkey body
create_firmware_preamble-Accepted_example =
    create_firmware_preamble-Accepted platform toy signing_key verifying_key toy-Signs 3 1 subkey
      body subkey-IsBytes body-IsBytes (omega (arith, body_size_test, subkey_size_test)) 628
      (omega (arith, body_size_test, subkey_size_test, siglen_test)) (omega arith)

key_block_create-Accepted_example :
    (h : Bytes) × (key_block_create platform toy subkey (some signing_key) 7 ≡ some (some h))
    × ((any : Option (Bytes × ℕ)) → key_block_verify toy h 0 568 any true ≡ success)
    × (key_block_verify toy h 0 568 (some (subkey.buf, 0)) false ≡ success)
key_block_create-Accepted_example =
    key_block_create-Accepted platform toy signing_key verifying_key toy-Signs subkey 7
      subkey-IsBytes (omega (arith, subkey_size_test)) 568
      (omega (arith, subkey_size_test, siglen_test)) (omega arith) subkey.buf 0 pair_test
