-- ===== src/Tests/Envs.antt =====
-- Concrete codecs, hashes and signatures, with the round trips that the models rely on.
use cil_core.Base.{
  ℕ, ◌+◌, ◌-◌, ◌≡◌, refl, Option, none, some, List, [], ap, arith, leb, length, if◌then◌else◌, ok,
}
use cil_core.Transaction.Types.{Transaction, TxEnv, Input, Output, Payload}
use cil_core.Block.Types.{Header, BlockEnv}
use cil_core.BlockInfo.{BlockInfo}
use cil_core.Storage.Types.{StorageEnv}
use cil_core.Tests.Codecs.{Format, number, listed, optional, codec}

-- Formats of parts make a format of what has the parts.
abbrev both : {A B : Type 0} → Format A → Format B → Format (A × B)
both f g = record {
  put = λ p r. f.put p.0 (g.put p.1 r);
  take = λ bytes. let (a, r1) = f.take bytes in let (b, r2) = g.take r1 in ((a, b), r2);
  take-put = λ p r. rw (f.take-put p.0 (g.put p.1 r), g.take-put p.1 r) refl;
}

abbrev mapped :
    {A B : Type 0}
    → (to : A → B) → (from : B → A) → ((b : B) → to (from b) ≡ b)
    → Format A
    → Format B
mapped to from same f = record {
  put = λ b r. f.put (from b) r;
  take = λ bytes. let (a, r) = f.take bytes in (to a, r);
  take-put = λ b r. rw (f.take-put (from b) r, same b) refl;
}

abbrev input : Format Input
input =
    mapped (λ p. record { tx_hash = p.0; n_tx_output = p.1 }) (λ i. (i.tx_hash, i.n_tx_output))
      (λ i. refl) (both number number)

abbrev output : Format Output
output =
    mapped
      (λ p. record {
        amount = p.0;
        receiver_addr = p.1.0;
        contract_code = p.1.1.0;
        addr_change_receiver = p.1.1.1;
      })
      (λ o. (o.amount, (o.receiver_addr, (o.contract_code, o.addr_change_receiver)))) (λ o. refl)
      (both number (both number (both (optional number) (optional number))))

abbrev payload : Format Payload
payload =
    mapped (λ p. record { version = p.0; concilium_id = p.1.0; ins = p.1.1.0; outs = p.1.1.1 })
      (λ o. (o.version, (o.concilium_id, (o.ins, o.outs)))) (λ o. refl)
      (both number (both number (both (listed input) (listed output))))

abbrev transaction : Format Transaction
transaction =
    mapped (λ p. record { payload = p.0; claim_proofs = p.1.0; tx_signature = p.1.1 })
      (λ t. (t.payload, (t.claim_proofs, t.tx_signature))) (λ t. refl)
      (both payload (both (listed (optional number)) (optional number)))

abbrev header : Format Header
header =
    mapped
      (λ p. record {
        parent_hashes = p.0;
        merkle_root = p.1.0;
        concilium_id = p.1.1.0;
        timestamp = p.1.1.1.0;
        version = p.1.1.1.1.0;
        height = p.1.1.1.1.1;
      })
      (λ h.
        (h.parent_hashes, (h.merkle_root, (h.concilium_id, (h.timestamp, (h.version, h.height))))))
      (λ h. refl)
      (both (listed number)
        (both (optional number) (both number (both number (both number number)))))

abbrev info : Format BlockInfo
info =
    mapped (λ p. record { header = p.0; flags = p.1 }) (λ b. (b.header, b.flags)) (λ b. refl)
      (both header number)

abbrev whole_block : Format (Header × List Transaction × List ℕ)
whole_block =
    mapped (λ p. (p.0, p.1.0, p.1.1)) (λ b. (b.0, (b.1, b.2))) (λ b. refl)
      (both header (both (listed transaction) (listed number)))

-- A signature is the sum of the hash and the key, and a key is its own address.
abbrev recovered : ℕ → ℕ → Option ℕ
recovered h s = if leb h s then some (s - h) else none

pub recovered-sum : (h k : ℕ) → recovered h (h + k) ≡ some k
recovered-sum h k = ground arith

abbrev pub tx_env : TxEnv
tx_env = record {
  hash_payload = λ p. 1000 + length p.ins + length p.outs + p.concilium_id;
  sign = λ h k. h + k;
  recover = recovered;
  addr_contract_creation = 999;
  encode = λ t. transaction.put t [];
  decode = λ bytes. ok (transaction.take bytes).0;
  decode-encode = λ t. ap (λ p. ok p.0) (transaction.take-put t []);
}

abbrev pub block_env : BlockEnv
block_env = record {
  hash_header = λ h. 5000 + h.height;
  merkle = length;
  random_address = 77;
  genesis_block = 1;
  dev_foundation_address = 88;
}

abbrev pub storage_env : StorageEnv
storage_env = record {
  codec = codec;
  block_env = block_env;
  encode_info = λ b. info.put b [];
  decode_info = λ bytes. (info.take bytes).0;
  info_round = λ b. ap (λ p. p.0) (info.take-put b []);
  encode_block = λ h ts sigs. whole_block.put (h, ts, sigs) [];
  decode_block = λ bytes. (whole_block.take bytes).0;
  block_round = λ h ts sigs. ap (λ p. p.0) (whole_block.take-put (h, ts, sigs) []);
  parse_definitions = λ n. [];
  definition_contract = none;
  height_fork_serializer_fix3 = 0;
}
