-- ===== src/FlashTool/Upgrade/File.antt =====
-- The image file of src/flash.c, where it can be read.
use libfcd.Base.{
  ℕ, ◌≡◌, refl, ap, ◌∙◌, true, false, some, List, String, pos, length, sym, poke_whole,
}
use libfcd.Device.Buffer.{length-uninit}
use libfcd.Platform.{Platform, Sys, uninit}
use libfcd.Platform.Returns.{Returns, Returns-and_then}
use libfcd.FlashTool.{Host, Context, fsize, fread_all, read_image}

module _ {p : Platform} (host : Host p) (Same : p.World → p.World → Type 0) where
  -- What is documented of the stream functions, for a file of the name with these bytes: the
  -- position at the end is the length, and from the start all of the bytes are read. What
  -- stays the same meanwhile is left open.
  pub record Readable (name : String) (bytes : List ℕ) : Type 1 where
    pub file : host.File
    pub AtEnd : p.World → Type 0
    pub AtStart : p.World → Type 0
    pub opens : (w : p.World) → ((host.fopen name w).0 ≡ some file) × Same w (host.fopen name w).1
    pub ends :
        (w : p.World)
        → ((host.fseek_end file w).0 ≡ false)
          × AtEnd (host.fseek_end file w).1
          × Same w (host.fseek_end file w).1
    pub tells :
        (w : p.World)
        → AtEnd w
        → ((host.ftell file w).0 ≡ pos (length bytes)) × Same w (host.ftell file w).1
    pub rewinds :
        (w : p.World)
        → ((host.fseek_set file w).0 ≡ false)
          × AtStart (host.fseek_set file w).1
          × Same w (host.fseek_set file w).1
    pub allocates : (n : ℕ) (w : p.World) → AtStart w → AtStart (p.malloc n w).1
    pub reads :
        (w : p.World)
        → AtStart w
        → ((host.fread file (length bytes) w).0 ≡ (1, bytes))
          × Same w (host.fread file (length bytes) w).1
    pub closes : (w : p.World) → Same w (host.fclose file w)

-- What stays the same stays so over two steps, and memory does not run out.
pub record Steady (p : Platform) (Same : p.World → p.World → Type 0) : Type 0 where
  pub along : (w w' w2 : p.World) → Same w w' → Same w' w2 → Same w w2
  pub allocates : (n : ℕ) (w : p.World) → ((p.malloc n w).0 ≡ true) × Same w (p.malloc n w).1

module _ (p : Platform) (host : Host p) (Same : p.World → p.World → Type 0) (steady : Steady p Same)
    (name : String) (bytes : List ℕ) (image : Readable host Same name bytes) where
  open steady use {along}

  fsize-length :
      (s : Sys p)
      → Returns
          (λ size t. (size ≡ pos (length bytes)) × image.AtStart t.world × Same s.world t.world)
          (fsize p host image.file s)
  unfolding fsize
  fsize-length s =
      let w1 = (host.fseek_end image.file s.world).1 in
      let (ended, at_end, calm) = image.ends s.world in
      let (told, calm') = image.tells w1 at_end in
      let (rewound, at_start, calm2) = image.rewinds (host.ftell image.file w1).1 in
      rw (ended, told, rewound)
        (refl, at_start, along s.world _ _ (along s.world w1 _ calm calm') calm2)

  fread_all-reads :
      (s : Sys p)
      → Returns
          (λ contents t. (contents ≡ some (bytes, length bytes)) × Same s.world t.world)
          (fread_all p host image.file s)
  unfolding fread_all
  fread_all-reads s =
      Returns-and_then _ _ (fsize p host image.file s) _ (fsize-length s)
        (λ size t (sized, at_start, calm).
          let (enough, calm') = steady.allocates (length bytes) t.world in
          let w1 = (p.malloc (length bytes) t.world).1 in
          let (all, calm2) = image.reads w1 (image.allocates (length bytes) t.world at_start) in
          let got = (host.fread image.file (length bytes) w1).0.1 in
          let same : got ≡ bytes = ap (λ r. r.1) all in
          rw
            (
              sized,
              enough,
              sized,
              poke_whole (uninit p (length bytes)) got
                  (ap length same ∙ sym (length-uninit p (length bytes))),
              ap (λ r. r.0) all,
            )
            (
              ap (λ b. some (b, length bytes)) same,
              along s.world w1 _ (along s.world t.world w1 calm calm') calm2,
            ))

  -- The context with the image.
  abbrev pub with_image : Context → Context
  with_image ctx = record ctx { data_read = some bytes; size = length bytes }

  pub read_image-reads :
      (ctx : Context) (s : Sys p)
      → Returns
          (λ ready t. (ready ≡ some (with_image ctx)) × Same s.world t.world)
          (read_image p host name ctx s)
  unfolding read_image
  read_image-reads ctx s =
      let (opened, calm) = image.opens s.world in
      let w1 = (host.fopen name s.world).1 in
      rw opened (
        Returns-and_then _ _ (fread_all p host image.file (record s { world = w1 })) _
          (fread_all-reads (record s { world = w1 }))
          (λ contents t (all, calm'). rw all (
            refl,
            along s.world t.world _ (along s.world w1 t.world calm calm') (image.closes t.world),
          )))
