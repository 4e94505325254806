-- ===== src/Metadata/Flag.antt =====
-- The built-in flags of src/interface/metadata.hpp, each the value that the enumeration gives it. A MetadataFlag
-- wraps one `int`, here that number.
use parthenon.Base.{ℕ}

abbrev pub MetadataFlag : Type 0
MetadataFlag = ℕ

abbrev pub ignore : MetadataFlag
ignore = 0

abbrev pub none_flag : MetadataFlag
none_flag = 1

abbrev pub cell : MetadataFlag
cell = 2

abbrev pub face : MetadataFlag
face = 3

abbrev pub edge : MetadataFlag
edge = 4

abbrev pub node : MetadataFlag
node = 5

abbrev pub particle : MetadataFlag
particle = 6

abbrev pub swarm : MetadataFlag
swarm = 7

abbrev pub private_flag : MetadataFlag
private_flag = 8

abbrev pub provides : MetadataFlag
provides = 9

abbrev pub requires : MetadataFlag
requires = 10

abbrev pub overridable : MetadataFlag
overridable = 11

abbrev pub vector : MetadataFlag
vector = 12

abbrev pub tensor : MetadataFlag
tensor = 13

abbrev pub boolean : MetadataFlag
boolean = 14

abbrev pub integer : MetadataFlag
integer = 15

abbrev pub real : MetadataFlag
real = 16

abbrev pub independent : MetadataFlag
independent = 17

abbrev pub derived : MetadataFlag
derived = 18

abbrev pub advected : MetadataFlag
advected = 19

abbrev pub conserved : MetadataFlag
conserved = 20

abbrev pub intensive : MetadataFlag
intensive = 21

abbrev pub restart : MetadataFlag
restart = 22

abbrev pub sparse : MetadataFlag
sparse = 23

abbrev pub sparse_communication : MetadataFlag
sparse_communication = 24

abbrev pub one_copy : MetadataFlag
one_copy = 25

abbrev pub fill_ghost : MetadataFlag
fill_ghost = 26

abbrev pub with_fluxes : MetadataFlag
with_fluxes = 27

abbrev pub force_remesh_comm : MetadataFlag
force_remesh_comm = 28

abbrev pub gmg_prolongate : MetadataFlag
gmg_prolongate = 29

abbrev pub gmg_restrict : MetadataFlag
gmg_restrict = 30

abbrev pub force_alloc_on_new_blocks : MetadataFlag
force_alloc_on_new_blocks = 31

abbrev pub fine : MetadataFlag
fine = 32

abbrev pub flux : MetadataFlag
flux = 33

abbrev pub coordinates_vec : MetadataFlag
coordinates_vec = 34

abbrev pub max_flag : MetadataFlag
max_flag = 35
