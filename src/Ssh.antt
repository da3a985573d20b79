-- ===== src/Ssh.antt =====
-- src/protocols/ssh/terrapin.cpp: the packets of the SSH key exchange. A `std::string` of size n has
-- a '\0' at index n, and a read behind that is undefined: it is `out_of_bounds` here.
pub mod Check
pub mod RoundTrip
pub mod Received
pub mod Bounds
pub mod Laws
pub mod Sound
pub use zero_trust_public.Reads.{Parsed, parsed, rejected, out_of_bounds, ◌>>=◌}
use zero_trust_public.Base.{
  ℕ, zero, suc, ◌+◌, ◌-◌, ◌*◌, ◌/◌, ◌%◌, ◌^◌, Bool, true, false, not, ◌&&◌, ◌||◌, List, [], ◌∷◌,
  ◌++◌, Bytes, codes, contains, is_empty, split_by, filter_by, if◌then◌else◌, Option, none, some,
  ltb, leb, ◌==◌, length, drop, take,
}

pub record KexInit : Type 0 where
  pub kex_algorithms : List Bytes
  pub encryption_algorithms_s_to_c : List Bytes
  pub mac_algorithms_s_to_c : List Bytes

unfoldable pub encode_uint32 : ℕ → Bytes
encode_uint32 v = v / 2 ^ 24 % 256 ∷ v / 2 ^ 16 % 256 ∷ v / 2 ^ 8 % 256 ∷ v % 256 ∷ []

-- What `append_name_list` appends.
unfoldable pub name_list : Bytes → Bytes
unfolding encode_uint32
name_list names = encode_uint32 (length names % 2 ^ 32) ++ names

abbrev pub zeros : ℕ → Bytes
zeros zero = []
zeros (suc n) = 0 ∷ zeros n

unfoldable pub build_kexinit_payload : Bytes
unfolding name_list
build_kexinit_payload =
    20
    ∷ (zeros 16
        ++ (name_list (codes "curve25519-sha256,curve25519-sha256@libssh.org,ecdh-sha2-nistp256")
            ++ (name_list (codes "ssh-ed25519,rsa-sha2-256,rsa-sha2-512,ecdsa-sha2-nistp256")
                ++ (name_list (codes "aes128-ctr,aes192-ctr,aes256-ctr")
                    ++ (name_list (codes "aes128-ctr,aes192-ctr,aes256-ctr")
                        ++ (name_list (codes "hmac-sha2-256,hmac-sha2-512")
                            ++ (name_list (codes "hmac-sha2-256,hmac-sha2-512")
                                ++ (name_list (codes "none")
                                    ++ (name_list (codes "none")
                                        ++ (name_list []
                                            ++ (name_list [] ++ (0 ∷ encode_uint32 0))))))))))))

unfoldable pub padding_of : ℕ → ℕ
padding_of size = let pad_len = 8 - (1 + size) % 8 in if ltb pad_len 4 then pad_len + 8 else pad_len

unfoldable pub frame_ssh_packet : Bytes → Bytes
unfolding padding_of encode_uint32
frame_ssh_packet payload =
    let pad_len = padding_of (length payload) in
    encode_uint32 ((1 + length payload + pad_len) % 2 ^ 32)
    ++ (pad_len ∷ (payload ++ zeros pad_len))

-- The memory that may be read.
abbrev pub buffer : Bytes → Bytes
buffer raw = raw ++ 0 ∷ []

unfoldable pub uint32_of : Bytes → Parsed ℕ
uint32_of (a ∷ b ∷ c ∷ d ∷ _) = parsed (a * 2 ^ 24 + b * 2 ^ 16 + c * 2 ^ 8 + d)
uint32_of _ = out_of_bounds

-- Four reads, from `raw[pos]` on.
unfoldable pub read_uint32 : Bytes → ℕ → Parsed ℕ
unfolding uint32_of
read_uint32 raw pos = uint32_of (drop pos (buffer raw))

unfoldable pub byte_of : Bytes → Parsed ℕ
byte_of [] = out_of_bounds
byte_of (c ∷ _) = parsed c

-- `raw[pos]`
unfoldable pub read_byte : Bytes → ℕ → Parsed ℕ
unfolding byte_of
read_byte raw pos = byte_of (drop pos (buffer raw))

-- `std::string(raw.data() + pos, len)`
unfoldable pub read_string : Bytes → ℕ → ℕ → Parsed Bytes
read_string raw pos len =
    if leb (pos + len) (length (buffer raw))
    then parsed (take len (drop pos (buffer raw)))
    else out_of_bounds

-- The names between the commas that are not empty.
unfoldable pub names_of : Bytes → List Bytes
names_of list_str = filter_by (λ item. not (is_empty item)) (split_by b',' list_str)

-- The names, and the position behind the list.
unfoldable pub read_name_list : Bytes → ℕ → ℕ → Parsed (List Bytes × ℕ)
read_name_list raw pos end =
    let found = read_uint32 raw pos >>= λ list_len.
    if ltb end (pos + 4 + list_len)
    then rejected
    else (read_string raw (pos + 4) list_len >>= λ list_str.
        parsed (names_of list_str, pos + 4 + list_len)) in
    if ltb end (pos + 4) then rejected else found

-- The six lists, from `pos` on.
unfoldable pub read_lists : Bytes → ℕ → ℕ → Parsed KexInit
read_lists raw end pos = read_name_list raw pos end >>= λ (kex, p1).
    read_name_list raw p1 end >>= λ (host_keys, p2).
    read_name_list raw p2 end >>= λ (to_server, p3).
    read_name_list raw p3 end >>= λ (to_client, p4).
    read_name_list raw p4 end >>= λ (macs_to_server, p5).
    read_name_list raw p5 end >>= λ (macs_to_client, p6). parsed (record {
      kex_algorithms = kex;
      encryption_algorithms_s_to_c = to_client;
      mac_algorithms_s_to_c = macs_to_client;
    })

-- `4 + packet_length` and `4 + packet_length - pad_len`, in 32 bits.
abbrev pub packet_end : ℕ → ℕ
packet_end packet_length = (4 + packet_length) % 2 ^ 32

abbrev pub payload_end : ℕ → ℕ → ℕ
payload_end packet_length pad_len = (4 + packet_length + (2 ^ 32 - pad_len)) % 2 ^ 32

-- Behind the length and the padding length.
unfoldable pub parse_payload : Bytes → ℕ → ℕ → Parsed KexInit
parse_payload raw packet_length pad_len =
    let end = payload_end packet_length pad_len in
    let typed =
      read_byte raw 5 >>= λ message. if message == 20 then read_lists raw end 22 else rejected in
    if ltb (length raw) (packet_end packet_length)
    then rejected
    else if leb end 5
    then rejected
    else typed

unfoldable pub parse_kexinit : Bytes → Parsed KexInit
parse_kexinit raw =
    let found = read_uint32 raw 0 >>= λ packet_length.
    read_byte raw 4 >>= λ pad_len. parse_payload raw packet_length pad_len in
    if ltb (length raw) 6 then rejected else found
