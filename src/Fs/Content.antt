-- ===== src/Fs/Content.antt =====
-- `readi` and `writei` of fs.c: a file as an array of bytes, the blocks that it lacks being zero.
use dockv6_project.Base.{
  ℕ, ◌*◌, ◌/◌, ◌%◌, ◌<◌, ◌≡◌, ◌≢◌, refl, arith, sym, ap, ◌∙◌, ℕ_discrete, ◌==◌, if◌then◌else◌,
}
use dockv6_project.Fs.{Dev, bsize}
use dockv6_project.Fs.Inode.{Dinode, ndirect, maxfile}
use dockv6_project.Fs.Owned.{DataBlock, Grows, DataBlock-Grows, Grows-trans, Grows-refl}
use dockv6_project.Fs.Bmap.{addr_of, FileOk, Mapped}

-- The byte at `off` of a file.
unfoldable pub file_byte : Dev → Dinode → ℕ → ℕ
file_byte d ip off =
    let a = addr_of d ip (off / bsize) in if a == 0 then 0 else d.block a (off % bsize)

-- A data block that is no block of the file.
pub record Foreign (d : Dev) (ip : Dinode) (c : ℕ) : Type 0 where
  pub block : DataBlock d c
  pub no_table : c ≢ ip.addrs ndirect
  pub no_data : (k : ℕ) → k < maxfile → addr_of d ip k ≢ c

-- From one state of a file to the next: the bytes are those of `f`, and other files keep theirs.
pub record Moves (d : Dev) (ip : Dinode) (f : ℕ → ℕ) (ip' : Dinode) (d' : Dev) : Type 0 where
  pub bytes : (o : ℕ) → o < maxfile * bsize → file_byte d' ip' o ≡ f o
  pub foreign : (c : ℕ) → Foreign d ip c → Foreign d' ip' c × (d'.block c ≡ d.block c)
  pub grows : Grows d d'
  pub ok : FileOk d' ip'
  pub same_size : ip'.size ≡ ip.size
  pub same_type : ip'.itype ≡ ip.itype

pub Moves-refl : (d : Dev) (ip : Dinode) → FileOk d ip → Moves d ip (file_byte d ip) ip d
Moves-refl d ip ok = record {
  bytes = λ o l. refl;
  foreign = λ c f. (f, refl);
  grows = Grows-refl d;
  ok = ok;
  same_size = refl;
  same_type = refl;
}

pub Moves-trans :
    (d : Dev) (ip : Dinode) (f : ℕ → ℕ) (ip1 : Dinode) (d1 : Dev) (g : ℕ → ℕ) (ip2 : Dinode)
    (d2 : Dev)
    → Moves d ip f ip1 d1
    → Moves d1 ip1 g ip2 d2
    → Moves d ip g ip2 d2
Moves-trans d ip f ip1 d1 g ip2 d2 m m' = record {
  bytes = m'.bytes;
  foreign =
      λ c o. let one = m.foreign c o in let two = m'.foreign c one.0 in (two.0, two.1 ∙ one.1);
  grows = Grows-trans d d1 d2 m.grows m'.grows;
  ok = m'.ok;
  same_size = m'.same_size ∙ m.same_size;
  same_type = m'.same_type ∙ m.same_type;
}

pub Moves-same :
    (d : Dev) (ip : Dinode) (f g : ℕ → ℕ) (ip' : Dinode) (d' : Dev)
    → ((o : ℕ) → o < maxfile * bsize → f o ≡ g o)
    → Moves d ip f ip' d'
    → Moves d ip g ip' d'
Moves-same d ip f g ip' d' e m = record {
  bytes = λ o l. m.bytes o l ∙ e o l;
  foreign = m.foreign;
  grows = m.grows;
  ok = m.ok;
  same_size = m.same_size;
  same_type = m.same_type;
}

-- `bmap` changes no byte of the file.
byte_kept :
    (d : Dev) (ip : Dinode) (bn a : ℕ) (ip' : Dinode) (d' : Dev)
    → FileOk d ip
    → Mapped d ip bn a ip' d'
    → (o : ℕ) → o < maxfile * bsize
    → file_byte d' ip' o ≡ file_byte d ip o
unfolding file_byte
byte_kept d ip bn a ip' d' ok m o l =
    let k = o / bsize in
    let kept : addr_of d ip k ≢ 0 → d'.block (addr_of d ip k) ≡ d.block (addr_of d ip k) = λ n.
      m.kept (addr_of d ip k) (ok.owns.blocks k (omega arith) n)
        (ok.owns.apart k (omega arith) n) in
    elim (ℕ_discrete (addr_of d ip k) 0) [
      | yes z ↦ elim (ℕ_discrete k bn) [
        | yes e ↦
            let here : addr_of d' ip' k ≡ a = rw e m.here in
            let blank = m.blank (rw (← e) z) (o % bsize) (omega arith) in
            ground (arith, here, z, blank)
        | no ne ↦ ground (arith, m.others k (omega arith) ne, z)
      ]
      | no nz ↦ elim (ℕ_discrete k bn) [
        | yes e ↦
            let here : addr_of d' ip' k ≡ addr_of d ip k = rw e (m.here ∙ m.old (rw (← e) nz)) in
            ground (arith, here, kept nz)
        | no ne ↦ ground (arith, m.others k (omega arith) ne, kept nz)
      ]
    ]

Foreign-kept :
    (d : Dev) (ip : Dinode) (bn a : ℕ) (ip' : Dinode) (d' : Dev) (c : ℕ)
    → Mapped d ip bn a ip' d'
    → bn < maxfile
    → Foreign d ip c
    → Foreign d' ip' c × (d'.block c ≡ d.block c)
Foreign-kept d ip bn a ip' d' c m l f = (
  record {
    block = DataBlock-Grows d d' c m.grows f.block;
    no_table = m.table c f.block f.no_table;
    no_data = λ k lk. elim (ℕ_discrete k bn) [
      | yes e ↦ elim (ℕ_discrete (addr_of d ip bn) 0) [
        | yes z ↦ λ q. m.fresh z c f.block (sym q ∙ ap (addr_of d' ip') e ∙ m.here)
        | no nz ↦
            λ q. f.no_data bn l (sym (m.old nz) ∙ sym m.here ∙ sym (ap (addr_of d' ip') e) ∙ q)
      ]
      | no ne ↦ λ q. f.no_data k lk (sym (m.others k lk ne) ∙ q)
    ];
  },
  m.kept c f.block f.no_table,
)

pub Mapped-Moves :
    (d : Dev) (ip : Dinode) (bn a : ℕ) (ip' : Dinode) (d' : Dev)
    → FileOk d ip
    → bn < maxfile
    → Mapped d ip bn a ip' d'
    → Moves d ip (file_byte d ip) ip' d'
Mapped-Moves d ip bn a ip' d' ok l m = record {
  bytes = byte_kept d ip bn a ip' d' ok m;
  foreign = λ c f. Foreign-kept d ip bn a ip' d' c m l f;
  grows = m.grows;
  ok = m.ok;
  same_size = m.same_size;
  same_type = m.same_type;
}
