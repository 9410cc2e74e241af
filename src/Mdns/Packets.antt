-- ===== src/Mdns/Packets.antt =====
-- src/llamaste/net_mdns.h and net_mdns.cpp: the packets the responder sends, `append_ptr` to
-- `build_response`. An address is the list of its four bytes.
use Prim.Native.Nat.{min}
use llamaste.Prelude.{ℕ, ◌+◌, List, [], ◌∷◌, ◌++◌, Bytes, length, take}
use llamaste.Mdns.{put_u16, put_u32}
use llamaste.Mdns.Names.{encode_dns_name}

pub record MdnsServiceRecord : Type 0 where
  pub browse_name : Bytes
  pub instance_name : Bytes
  pub port : ℕ
  pub txt : List Bytes

abbrev pub type_a : ℕ
type_a = 1

abbrev pub type_ptr : ℕ
type_ptr = 12

abbrev pub type_txt : ℕ
type_txt = 16

abbrev pub type_srv : ℕ
type_srv = 33

-- `DNS_CLASS_IN | 0x8000`, the class with the cache-flush bit.
abbrev pub class_flush : ℕ
class_flush = 32769

-- `DNS_FLAG_RESPONSE | DNS_FLAG_AUTHORITATIVE`
abbrev pub response_flags : ℕ
response_flags = 33792

abbrev pub addr_ttl : ℕ
addr_ttl = 120

abbrev pub svc_ttl : ℕ
svc_ttl = 4500

-- What every record starts with: owner, type, class, time to live, and the length of the data.
abbrev pub record_head : Bytes → ℕ → ℕ → ℕ → ℕ → Bytes
record_head owner rr_type rr_class ttl rdlength =
    encode_dns_name owner
    ++ (put_u16 rr_type ++ (put_u16 rr_class ++ (put_u32 ttl ++ put_u16 rdlength)))

unfoldable pub append_ptr : Bytes → Bytes → Bytes
append_ptr browse_name instance_name =
    let target : Bytes = encode_dns_name instance_name in
    record_head browse_name type_ptr 1 svc_ttl (length target) ++ target

unfoldable pub append_srv : Bytes → Bytes → ℕ → Bytes
append_srv instance_name host_fqdn port =
    let target : Bytes = encode_dns_name host_fqdn in
    record_head instance_name type_srv class_flush addr_ttl (6 + length target)
    ++ (put_u16 0 ++ (put_u16 0 ++ (put_u16 port ++ target)))

unfoldable pub txt_strings : List Bytes → Bytes
txt_strings [] = []
txt_strings (kv ∷ kvs) = min 255 (length kv) ∷ (take 255 kv ++ txt_strings kvs)

unfoldable pub txt_data : List Bytes → Bytes
txt_data [] = 0 ∷ []
txt_data (kv ∷ kvs) = txt_strings (kv ∷ kvs)

unfoldable pub append_txt : Bytes → List Bytes → Bytes
append_txt instance_name kvs =
    let rdata : Bytes = txt_data kvs in
    record_head instance_name type_txt class_flush svc_ttl (length rdata) ++ rdata

unfoldable pub append_a : Bytes → Bytes → Bytes
append_a fqdn ip = record_head fqdn type_a class_flush addr_ttl 4 ++ ip

abbrev pub header : ℕ → ℕ → ℕ → ℕ → ℕ → Bytes
header id flags questions answers additional =
    put_u16 id
    ++ (put_u16 flags
        ++ (put_u16 questions ++ (put_u16 answers ++ (put_u16 0 ++ put_u16 additional))))

unfoldable pub build_service_response : MdnsServiceRecord → Bytes → Bytes → ℕ → Bytes
build_service_response svc host_fqdn ip query_id =
    header query_id response_flags 0 1 3
    ++ (append_ptr svc.browse_name svc.instance_name
        ++ (append_srv svc.instance_name host_fqdn svc.port
            ++ (append_txt svc.instance_name svc.txt ++ append_a host_fqdn ip)))

unfoldable pub build_ptr_query : Bytes → Bytes
build_ptr_query service_fqdn =
    header 0 0 1 0 0 ++ (encode_dns_name service_fqdn ++ (put_u16 type_ptr ++ put_u16 32769))

-- One answer, and the time to live is `MDNS_TTL`, that of an address.
unfoldable pub build_response : Bytes → Bytes → ℕ → Bytes
build_response fqdn ip query_id = header query_id response_flags 0 1 0 ++ append_a fqdn ip
