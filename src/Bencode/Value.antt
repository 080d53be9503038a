-- ===== src/Bencode/Value.antt =====
-- bip_bencode/src/reference/bencode_ref.rs and mutable/bencode_mut.rs: bencode values. The two types
-- of the crate are one here, over what a value carries besides: a `BencodeRef` carries at each node
-- the bytes that it was read from, a `BencodeMut` carries nothing. The encoder is generic over both.
use rust_bt.Base.{ℕ, suc, ◌<◌, ◌^◌, ◌≡◌, true, Bytes, bytes_lt, length}
use rust_bt.Base.Int.{ℤ, pos, negsuc}
use Prim.Native.Nat.{max}

-- A dictionary is a `BTreeMap`: its entries in the order of the keys.
mutual
  pub data Bencode (B : Type 0) : Type 0 where
    int : ℤ → B → Bencode B
    bytes : Bytes → B → Bencode B
    list : Items B → B → Bencode B
    dict : Entries B → B → Bencode B

  pub data Items (B : Type 0) : Type 0 where
    nil : Items B
    cons : Bencode B → Items B → Items B

  pub data Entries (B : Type 0) : Type 0 where
    end : Entries B
    entry : Bytes → Bencode B → Entries B → Entries B

abbrev pub BencodeRef : Type 0
BencodeRef = Bencode Bytes

abbrev pub BencodeMut : Type 0
BencodeMut = Bencode (Unit {0})

-- `BencodeRef::buffer`
unfoldable pub buffer : BencodeRef → Bytes
buffer (int n b) = b
buffer (bytes s b) = b
buffer (list xs b) = b
buffer (dict es b) = b

abbrev pub IsI64 : ℤ → Type 0
IsI64 (pos n) = n < 2 ^ 63
IsI64 (negsuc n) = n < 2 ^ 63

module _ {B : Type 0} where
  -- How many levels of values there are, one for a value without parts.
  unfoldable mutual
    pub height : Bencode B → ℕ
    height (int n b) = 1
    height (bytes s b) = 1
    height (list xs b) = suc (height_items xs)
    height (dict es b) = suc (height_entries es)

    pub height_items : Items B → ℕ
    height_items nil = 0
    height_items (cons x xs) = max (height x) (height_items xs)

    pub height_entries : Entries B → ℕ
    height_entries end = 0
    height_entries (entry k v es) = max (height v) (height_entries es)

  -- Every key is greater, or smaller, than `k`.
  abbrev pub AllAbove : Bytes → Entries B → Type 0
  AllAbove k end = Unit {0}
  AllAbove k (entry k' v es) = (bytes_lt k k' ≡ true) × AllAbove k es

  abbrev pub AllBelow : Bytes → Entries B → Type 0
  AllBelow k end = Unit {0}
  AllBelow k (entry k' v es) = (bytes_lt k' k ≡ true) × AllBelow k es

  -- What the types of the crate guarantee: an integer is an `i64`, a slice is no longer than an
  -- `isize` can say, and a map has its keys in strictly ascending order.
  unfoldable mutual
    pub IsWf : Bencode B → Type 0
    IsWf (int n b) = IsI64 n
    IsWf (bytes s b) = length s < 2 ^ 63
    IsWf (list xs b) = AreWf xs
    IsWf (dict es b) = AreWfEntries es

    pub AreWf : Items B → Type 0
    AreWf nil = Unit {0}
    AreWf (cons x xs) = IsWf x × AreWf xs

    pub AreWfEntries : Entries B → Type 0
    AreWfEntries end = Unit {0}
    AreWfEntries (entry k v es) = (length k < 2 ^ 63) × IsWf v × AllAbove k es × AreWfEntries es
