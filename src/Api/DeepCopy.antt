-- ===== src/Api/DeepCopy.antt =====
-- api/v1alpha1/zz_generated.deepcopy.go: copies of the API objects that share no memory with them.
-- An object in memory is given with the address of each block that it points to (`Ref`), and a
-- slice or map with the address of its backing store. What a call allocates gets the next unused
-- addresses, in the order of the calls; so does an allocation of no bytes.
pub mod Alloc
pub mod Layout
pub mod Packages
pub mod Into
pub mod Copy
pub mod Independent
