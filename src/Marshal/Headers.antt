-- ===== src/Marshal/Headers.antt =====
-- req_header, reply_header and the sizes of rpc/marshall.h (lines 15-43), with RPC_CHECKSUMMING off
-- as in GNUmakefile. A C int is its 32-bit pattern.
use mit6_824_2012spring_yfs.Prelude.{ℕ, ◌+◌}

pub record ReqHeader : Type 0 where
  pub xid : ℕ
  pub proc : ℕ
  pub clt_nonce : ℕ
  pub srv_nonce : ℕ
  pub xid_rep : ℕ

pub record ReplyHeader : Type 0 where
  pub xid : ℕ
  pub ret : ℕ

abbrev pub default_rpc_sz : ℕ
default_rpc_sz = 1024

-- sizeof(rpc_sz_t), sizeof(req_header)
abbrev pub sizeof_rpc_sz : ℕ
sizeof_rpc_sz = 4

abbrev pub rpc_header_sz : ℕ
rpc_header_sz = 20 + sizeof_rpc_sz
